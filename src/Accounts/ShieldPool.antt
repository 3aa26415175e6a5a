-- ===== src/Accounts/ShieldPool.antt =====
-- `decodeShieldPool` of sdk/src/kirite-zk.mjs, and the zero-copy account of
-- programs/kirite/src/state/shield_pool.rs, whose fields stand one after another.
use kirite.Prelude.{
  ℕ, zero, suc, ◌<◌, ◌^◌, ◌≡◌, ℤ, List, [], ◌∷◌, ◌++◌, Result, ok, length, All, arith,
}
use kirite.Bytes.{Bytes, le_bytes}
use kirite.Prelude.{concat}
use kirite.Buffer.{Reader, ◌>>=◌, pure, read_slice, read_uint_le, read_i64, read_key, decode_from_8}
use kirite.Buffer.Reads.{
  i64_bytes, IsI64, Reads, Reads-pure, Reads-bind, Reads-slice, Reads-uint_le, Reads-i64, Reads-key,
  decode_from_8-eq,
}
use kirite.Web3.{Web3}

pub record ShieldPool (K : Type 0) : Type 0 where
  pub mint : K
  pub operator : K
  pub protocol_config : K
  pub vault : K
  pub current_root : Bytes
  pub historical_roots : List Bytes
  pub filled_subtrees : List Bytes
  pub denomination : ℕ
  pub total_deposits : ℕ
  pub total_withdrawals : ℕ
  pub fees_collected : ℕ
  pub timelock_seconds : ℤ
  pub created_at : ℤ
  pub last_deposit_at : ℤ
  pub next_leaf_index : ℕ
  pub root_history_index : ℕ
  pub is_frozen : ℕ
  pub bump : ℕ
  pub vault_authority_bump : ℕ

-- The fields fit the arrays and the machine integers of the struct.
pub record ShieldPoolFits {K : Type 0} (p : ShieldPool K) : Type 0 where
  pub current_root : length p.current_root ≡ 32
  pub historical_roots : All (λ root. length root ≡ 32) p.historical_roots
  pub three_roots : length p.historical_roots ≡ 3
  pub filled_subtrees : All (λ node. length node ≡ 32) p.filled_subtrees
  pub fifteen_subtrees : length p.filled_subtrees ≡ 15
  pub denomination : p.denomination < 2 ^ 64
  pub total_deposits : p.total_deposits < 2 ^ 64
  pub total_withdrawals : p.total_withdrawals < 2 ^ 64
  pub fees_collected : p.fees_collected < 2 ^ 64
  pub timelock_seconds : IsI64 p.timelock_seconds
  pub created_at : IsI64 p.created_at
  pub last_deposit_at : IsI64 p.last_deposit_at
  pub next_leaf_index : p.next_leaf_index < 2 ^ 32
  pub root_history_index : p.root_history_index < 2 ^ 8
  pub is_frozen : p.is_frozen < 2 ^ 8
  pub bump : p.bump < 2 ^ 8
  pub vault_authority_bump : p.vault_authority_bump < 2 ^ 8

-- `for (let i = 0; i < n; i++) xs.push(read32Bytes())`
read_hashes : ℕ → Reader (List Bytes)
read_hashes zero = pure []
read_hashes (suc n) = do bs ← read_slice 32; rest ← read_hashes n; pure (bs ∷ rest)

-- The elements of an array of byte arrays, one after another.
hashes_bytes : List Bytes → Bytes
hashes_bytes [] = []
hashes_bytes (bs ∷ rest) = concat (bs ∷ hashes_bytes rest ∷ [])

Reads-hashes :
    (hs : List Bytes) (n : ℕ)
    → length hs ≡ n
    → All (λ bs. length bs ≡ 32) hs
    → Reads (read_hashes n) (hashes_bytes hs) hs
unfolding read_hashes hashes_bytes
Reads-hashes [] zero len all = Reads-pure []
Reads-hashes [] (suc n) len all = absurd (omega arith)
Reads-hashes (bs ∷ hs) zero len all = absurd (omega arith)
Reads-hashes (bs ∷ hs) (suc n) len (size, all) =
    Reads-bind _ (Reads-slice bs 32 size)
      (Reads-bind _ (Reads-hashes hs n (omega arith) all) (Reads-pure (bs ∷ hs)))

module _ (w : Web3) where
  open w use {PublicKey, to_bytes}

  read_shield_pool : Reader (ShieldPool PublicKey)
  unfolding read_hashes
  read_shield_pool = do
    mint ← read_key w
    operator ← read_key w
    protocol_config ← read_key w
    vault ← read_key w
    current_root ← read_slice 32
    historical_roots ← read_hashes 3
    filled_subtrees ← read_hashes 15
    denomination ← read_uint_le 8
    total_deposits ← read_uint_le 8
    total_withdrawals ← read_uint_le 8
    fees_collected ← read_uint_le 8
    timelock_seconds ← read_i64
    created_at ← read_i64
    last_deposit_at ← read_i64
    next_leaf_index ← read_uint_le 4
    root_history_index ← read_uint_le 1
    is_frozen ← read_uint_le 1
    bump ← read_uint_le 1
    vault_authority_bump ← read_uint_le 1
    pure (record {
      mint = mint;
      operator = operator;
      protocol_config = protocol_config;
      vault = vault;
      current_root = current_root;
      historical_roots = historical_roots;
      filled_subtrees = filled_subtrees;
      denomination = denomination;
      total_deposits = total_deposits;
      total_withdrawals = total_withdrawals;
      fees_collected = fees_collected;
      timelock_seconds = timelock_seconds;
      created_at = created_at;
      last_deposit_at = last_deposit_at;
      next_leaf_index = next_leaf_index;
      root_history_index = root_history_index;
      is_frozen = is_frozen;
      bump = bump;
      vault_authority_bump = vault_authority_bump;
    })

  pub decode_shield_pool : Bytes → Result (ShieldPool PublicKey)
  unfolding read_shield_pool
  decode_shield_pool buf = decode_from_8 read_shield_pool buf

  -- The fields in the order of `struct ShieldPool`.
  pub shield_pool_bytes : ShieldPool PublicKey → Bytes
  unfolding hashes_bytes
  shield_pool_bytes p = concat (
      to_bytes p.mint
      ∷ to_bytes p.operator
      ∷ to_bytes p.protocol_config
      ∷ to_bytes p.vault
      ∷ p.current_root
      ∷ hashes_bytes p.historical_roots
      ∷ hashes_bytes p.filled_subtrees
      ∷ le_bytes 8 p.denomination
      ∷ le_bytes 8 p.total_deposits
      ∷ le_bytes 8 p.total_withdrawals
      ∷ le_bytes 8 p.fees_collected
      ∷ i64_bytes p.timelock_seconds
      ∷ i64_bytes p.created_at
      ∷ i64_bytes p.last_deposit_at
      ∷ le_bytes 4 p.next_leaf_index
      ∷ le_bytes 1 p.root_history_index
      ∷ le_bytes 1 p.is_frozen
      ∷ le_bytes 1 p.bump
      ∷ le_bytes 1 p.vault_authority_bump
      ∷ [])

  -- `decodeShieldPool` gives the pool whose fields the program wrote, in the struct's order.
  pub decode_shield_pool-bytes :
      (disc : Bytes) (p : ShieldPool PublicKey)
      → length disc ≡ 8
      → ShieldPoolFits p
      → decode_shield_pool (disc ++ shield_pool_bytes p) ≡ ok p
  unfolding decode_shield_pool shield_pool_bytes
  decode_shield_pool-bytes disc p len fits = decode_from_8-eq disc len (
      Reads-bind _ (Reads-key w p.mint) (
        Reads-bind _ (Reads-key w p.operator) (
          Reads-bind _ (Reads-key w p.protocol_config) (
            Reads-bind _ (Reads-key w p.vault) (
              Reads-bind _ (Reads-slice p.current_root 32 fits.current_root) (
                Reads-bind _
                  (Reads-hashes p.historical_roots 3 fits.three_roots fits.historical_roots)
                  (Reads-bind _
                    (Reads-hashes p.filled_subtrees 15 fits.fifteen_subtrees fits.filled_subtrees)
                    (Reads-bind _ (Reads-uint_le 8 p.denomination (omega arith) fits.denomination) (
                      Reads-bind _
                        (Reads-uint_le 8 p.total_deposits (omega arith) fits.total_deposits)
                        (Reads-bind _
                          (Reads-uint_le 8 p.total_withdrawals (omega arith) fits.total_withdrawals)
                          (Reads-bind _
                            (Reads-uint_le 8 p.fees_collected (omega arith) fits.fees_collected)
                            (Reads-bind _ (Reads-i64 p.timelock_seconds fits.timelock_seconds) (
                              Reads-bind _ (Reads-i64 p.created_at fits.created_at) (
                                Reads-bind _ (Reads-i64 p.last_deposit_at fits.last_deposit_at) (
                                  Reads-bind _
                                    (Reads-uint_le 4 p.next_leaf_index (omega arith)
                                      fits.next_leaf_index)
                                    (Reads-bind _
                                      (Reads-uint_le 1 p.root_history_index (omega arith)
                                        fits.root_history_index)
                                      (Reads-bind _
                                        (Reads-uint_le 1 p.is_frozen (omega arith) fits.is_frozen)
                                        (Reads-bind _
                                          (Reads-uint_le 1 p.bump (omega arith) fits.bump)
                                          (Reads-bind _
                                            (Reads-uint_le 1 p.vault_authority_bump (omega arith)
                                              fits.vault_authority_bump)
                                            (Reads-pure p))))))))))))))))))))
