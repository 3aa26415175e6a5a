-- ===== src/Fees/Split.antt =====
-- No unit of an amount is lost or made by its fee.
use kirite.Prelude.{
  ap, rest_of_ok, ok-injective, leb→le, ℕ, ◌+◌, ◌-◌, ◌*◌, ◌/◌, ◌^◌, ◌<◌, ◌≤◌, ◌≡◌, refl, true,
  false, ◌>>=◌, ==_iff, inl, inr, Bool-cases, ok, Error, ltb, leb, ◌==◌, arith,
}
use native.Mathlib.Nat.{mul-le-mul_left, mul-pos}
use kirite.Fees.{to_u64, calculate_fee, calculate_net_amount, split_fee}

to_u64-fits : (n : ℕ) (e : Error) → n < 2 ^ 64 → to_u64 n e ≡ ok n
unfolding to_u64
to_u64-fits n e h = ground arith

-- A fee is rounded up to the next unit.
calculate_fee_bounds :
    (amount bps : ℕ)
    → amount < 2 ^ 64
    → bps ≤ 10000
    → (fee : ℕ) × (calculate_fee amount bps ≡ ok fee)
      × (fee ≤ amount)
      × (amount * bps ≤ fee * 10000)
      × (fee * 10000 < amount * bps + 10000)
unfolding calculate_fee
calculate_fee_bounds amount bps small h = elim (Bool-cases (bps == 0)) [
  | inl free ↦
      let zero_bps = (==_iff bps 0).0 free in
      (0, rw free refl, omega arith, rw zero_bps (omega arith), omega arith)
  | inr paid ↦ elim (Bool-cases (amount == 0)) [
    | inl nothing ↦
        let no_amount = (==_iff amount 0).0 nothing in
        (0, rw (paid, nothing) refl, omega arith, rw no_amount (omega arith), omega arith)
    | inr some_amount ↦
        let below : amount * bps ≤ amount * 10000 = mul-le-mul_left amount h in
        let above : 0 < amount * bps = mul-pos (ground arith) (ground arith) in
        let fee = (amount * bps + 9999) / 10000 in
        let least : ltb fee 1 ≡ false = ground arith in
        (
          fee,
          rw
              (
                paid,
                some_amount,
                to_u64-fits fee Error.fee_overflow (omega (arith, small, below)),
                least,
              )
              refl,
          omega (arith, below),
          omega arith,
          omega arith,
        )
  ]
]

split_fee_sum :
    (fee ratio : ℕ)
    → fee < 2 ^ 64
    → ratio ≤ 10000
    → (burn : ℕ) × (treasury : ℕ) × (split_fee fee ratio ≡ ok (burn, treasury))
      × (burn + treasury ≡ fee)
      × (burn * 10000 ≤ fee * ratio)
      × (fee * ratio < burn * 10000 + 10000)
unfolding split_fee
split_fee_sum fee ratio small h = elim (Bool-cases (fee == 0)) [
  | inl nothing ↦
      let no_fee = (==_iff fee 0).0 nothing in
      (0, 0, rw nothing refl, omega arith, omega arith, rw no_fee (omega arith))
  | inr some_fee ↦
      let below : fee * ratio ≤ fee * 10000 = mul-le-mul_left fee h in
      let burn = fee * ratio / 10000 in
      let fits : burn ≤ fee = omega (arith, below) in
      let tested : leb burn fee ≡ true = ground arith in
      (
        burn,
        fee - burn,
        rw (some_fee, to_u64-fits burn Error.fee_overflow (omega (arith, small, fits)), tested)
            refl,
        omega (arith, fits),
        omega arith,
        omega arith,
      )
]

-- The fee of a 64-bit amount and its two parts are computed without an error, where neither rate is
-- above 10000: with the net amount the two parts make up the amount, the fee is the amount's share
-- rounded up, and what is burnt is the fee's share rounded down.
pub fee_split :
    (amount bps ratio : ℕ)
    → amount < 2 ^ 64
    → bps ≤ 10000
    → ratio ≤ 10000
    → (net : ℕ) × (fee : ℕ) × (burn : ℕ) × (treasury : ℕ) × (calculate_net_amount amount bps
        ≡ ok (net, fee))
      × (split_fee fee ratio ≡ ok (burn, treasury))
      × (net + (burn + treasury) ≡ amount)
      × (amount * bps ≤ fee * 10000)
      × (fee * 10000 < amount * bps + 10000)
      × (burn * 10000 ≤ fee * ratio)
      × (fee * ratio < burn * 10000 + 10000)
unfolding calculate_net_amount
fee_split amount bps ratio small h h' =
    let (fee, charged, fits, least, most) = calculate_fee_bounds amount bps small h in
    let (burn, treasury, split, sum, low, high) =
      split_fee_sum fee ratio (omega (arith, fits)) h' in
    let tested : leb fee amount ≡ true = ground arith in
    (
      amount - fee,
      fee,
      burn,
      treasury,
      rw (charged, ◌>>=◌, tested) refl,
      split,
      omega (arith, sum, fits),
      least,
      most,
      low,
      high,
    )

-- What is computed adds up.
pub net_and_fee :
    (gross bps : ℕ) (amounts : ℕ × ℕ)
    → calculate_net_amount gross bps ≡ ok amounts
    → amounts.0 + amounts.1 ≡ gross
unfolding calculate_net_amount
net_and_fee gross bps amounts h =
    let (fee, charged, ending) = rest_of_ok (calculate_fee gross bps) _ h in
    elim (Bool-cases (leb fee gross)) [
      | inr above ↦ cc (rw above at ending)
      | inl fits ↦
          let same = ok-injective _ _ (rw fits at ending) in
          omega (
            arith,
            leb→le fee gross fits,
            ap (λ (p : ℕ × ℕ). p.0) same,
            ap (λ (p : ℕ × ℕ). p.1) same,
          )
    ]

pub parts_of_fee :
    (fee ratio : ℕ) (parts : ℕ × ℕ) → split_fee fee ratio ≡ ok parts → parts.0 + parts.1 ≡ fee
unfolding split_fee
parts_of_fee fee ratio parts h = elim (Bool-cases (fee == 0)) [
  | inl none_due ↦
      let same = ok-injective _ _ (rw none_due at h) in
      omega (
        arith,
        (==_iff fee 0).0 none_due,
        ap (λ (p : ℕ × ℕ). p.0) same,
        ap (λ (p : ℕ × ℕ). p.1) same,
      )
  | inr due ↦
      let (burnt, share, ending) =
        rest_of_ok (to_u64 (fee * ratio / 10000) Error.fee_overflow) _ (rw due at h) in
      elim (Bool-cases (leb burnt fee)) [
        | inr above ↦ cc (rw above at ending)
        | inl fits ↦
            let same = ok-injective _ _ (rw fits at ending) in
            omega (
              arith,
              leb→le burnt fee fits,
              ap (λ (p : ℕ × ℕ). p.0) same,
              ap (λ (p : ℕ × ℕ). p.1) same,
            )
      ]
]
