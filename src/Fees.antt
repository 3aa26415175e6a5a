-- ===== src/Fees.antt =====
-- The fee of a withdrawal: programs/kirite/src/utils/math.rs. A product of a 64-bit and a 16-bit number
-- fits in the 128 bits that the code computes in.
pub mod Split
use kirite.Prelude.{
  ℕ, ◌+◌, ◌-◌, ◌*◌, ◌/◌, ◌^◌, Result, ok, err, Error, ◌>>=◌, ltb, leb, ◌==◌, if◌then◌else◌,
}

-- `BPS_DENOMINATOR` and `MIN_FEE_LAMPORTS`.
abbrev pub bps_denominator : ℕ
bps_denominator = 10000

abbrev pub min_fee_lamports : ℕ
min_fee_lamports = 1

-- `u64::try_from(n)`
unfoldable pub to_u64 : ℕ → Error → Result ℕ
to_u64 n e = if ltb n (2 ^ 64) then ok n else err e

unfoldable pub calculate_fee : ℕ → ℕ → Result ℕ
unfolding to_u64
calculate_fee amount fee_bps = if fee_bps == 0 then ok 0 else if amount == 0 then ok 0 else (do
  fee ← to_u64 ((amount * fee_bps + (bps_denominator - 1)) / bps_denominator) Error.fee_overflow
  ok (if ltb fee min_fee_lamports then min_fee_lamports else fee))

-- The net amount and the fee.
unfoldable pub calculate_net_amount : ℕ → ℕ → Result (ℕ × ℕ)
unfolding calculate_fee
calculate_net_amount gross_amount fee_bps = do
  fee ← calculate_fee gross_amount fee_bps
  if leb fee gross_amount then ok (gross_amount - fee, fee) else err Error.math_overflow

-- The part that is burnt and the treasury's.
unfoldable pub split_fee : ℕ → ℕ → Result (ℕ × ℕ)
unfolding to_u64
split_fee fee burn_ratio_bps = if fee == 0 then ok (0, 0) else (do
  burn ← to_u64 (fee * burn_ratio_bps / bps_denominator) Error.fee_overflow
  if leb burn fee then ok (burn, fee - burn) else err Error.math_overflow)
