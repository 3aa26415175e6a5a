-- ===== src/Instructions/OnChain.antt =====
-- What the two programs ask of an instruction: the discriminator, the arguments in Borsh, and the
-- accounts of the handler's `#[derive(Accounts)]` struct in their order, with `mut`, `Signer`, and the
-- address where `seeds` or a `Program` fixes it. The other constraints are on what the accounts hold.
use kirite.Prelude.{
  ℕ, ◌+◌, ◌≡◌, refl, ap, Bool, true, false, not, ◌&&◌, ◌||◌, List, [], ◌∷◌, ◌++◌, append-nil,
  Option, none, some, ok, err, Error, Bool-cases, Result-cases, inl, inr, ◌≤◌, length,
  length-append, length-drop, ◌<◌, take, drop, take-append_of_length, length-take, leb, le→leb,
  bytes_eq, bytes_eq_refl, if◌then◌else◌, arith,
}
use kirite.Bytes.{Bytes}
use kirite.Buffer.{Reader, decode_from_8}
use kirite.Buffer.Reads.{Reads, decode_from_8-eq}
use kirite.Instructions.Text
use kirite.Instructions.{AccountMeta, TransactionInstruction, Sdk, discriminator}

pub record Constraint (K : Type 0) : Type 0 where
  pub signs : Bool
  pub changes : Bool
  -- The addresses that it may have; none of them is any.
  pub addresses : List K

module _ {K : Type 0} where
  abbrev pub some_account : Constraint K
  some_account = record { signs = false; changes = false; addresses = [] }

  abbrev pub mut_account : Constraint K
  mut_account = record { signs = false; changes = true; addresses = [] }

  abbrev pub account_at : K → Constraint K
  account_at k = record { signs = false; changes = false; addresses = k ∷ [] }

  abbrev pub mut_account_at : K → Constraint K
  mut_account_at k = record { signs = false; changes = true; addresses = k ∷ [] }

  abbrev pub account_at_one : List K → Constraint K
  account_at_one ks = record { signs = false; changes = false; addresses = ks }

  abbrev pub mut_signer : Constraint K
  mut_signer = record { signs = true; changes = true; addresses = [] }

-- A byte array of `n` bytes in Borsh.
pub read_array : ℕ → Reader Bytes
read_array n buf o =
    if leb (o + n) (length buf) then ok (take n (drop o buf), o + n) else err Error.range_error

pub Reads-array : (bs : Bytes) (n : ℕ) → 0 < n → length bs ≡ n → Reads (read_array n) bs bs
unfolding read_array
Reads-array bs n some_bytes len = record {
  run = λ buf o rest h.
      let size : length (bs ++ rest) ≡ n + length rest = omega (arith, length-append bs rest) in
      let fits : o + n ≤ length buf = omega (arith, length-drop o buf, ap length h, size) in
      rw (le→leb (o + n) (length buf) fits, h, take-append_of_length n bs rest len, len) refl;
}

module _ (sdk : Sdk) where
  open sdk use {web3, token_program_id, system_program_id}
  open web3 use {PublicKey, to_bytes, equals}

  abbrev is_among : List PublicKey → PublicKey → Bool
  is_among [] k = false
  is_among (a ∷ others) k = equals k a || is_among others k

  abbrev is_at : List PublicKey → PublicKey → Bool
  is_at [] k = true
  is_at (a ∷ others) k = is_among (a ∷ others) k

  abbrev meets : Constraint PublicKey → AccountMeta PublicKey → Bool
  meets c m =
      (not c.signs || m.is_signer)
      && ((not c.changes || m.is_writable) && is_at c.addresses m.pubkey)

  -- `try_accounts`: the accounts are taken one after another, and there are enough of them.
  abbrev pub accepts : List (Constraint PublicKey) → List (AccountMeta PublicKey) → Bool
  accepts [] metas = true
  accepts (c ∷ cs) [] = false
  accepts (c ∷ cs) (m ∷ ms) = meets c m && accepts cs ms

  -- The arguments that the handler of the name runs with, where the program takes the instruction.
  pub handle :
      {A : Type 0}
      → Bytes
      → Reader A
      → (A → List (Constraint PublicKey))
      → TransactionInstruction PublicKey
      → Option A
  handle name arguments accounts ix =
      if bytes_eq (take 8 ix.bytes) (discriminator sdk name)
      then elim (decode_from_8 arguments ix.bytes) [
        | err e ↦ none
        | ok a ↦ if accepts (accounts a) ix.account_keys then some a else none
      ]
      else none

  length-discriminator : (name : Bytes) → length (discriminator sdk name) ≡ 8
  unfolding discriminator
  length-discriminator name = omega (
    arith,
    length-take 8 (sdk.sha256 (Text.global ++ name)),
    sdk.length-sha256 (Text.global ++ name),
  )

  pub handle-eq :
      {A : Type 0} (name : Bytes) {r : Reader A} {enc : Bytes} {a : A}
      (accounts : A → List (Constraint PublicKey)) (program : PublicKey)
      (metas : List (AccountMeta PublicKey))
      → Reads r enc a
      → accepts (accounts a) metas ≡ true
      → handle name r accounts (record {
        program_id = program;
        account_keys = metas;
        bytes = discriminator sdk name ++ enc;
      })
        ≡ some a
  unfolding handle
  handle-eq name {r} {enc} {a} accounts program metas reads accepted =
      rw
        (
          take-append_of_length 8 (discriminator sdk name) enc (length-discriminator name),
          bytes_eq_refl (discriminator sdk name),
          decode_from_8-eq (discriminator sdk name) (length-discriminator name) reads,
          accepted,
        )
        refl

  pub handle_bare-eq :
      {A : Type 0} (name : Bytes) {r : Reader A} {a : A}
      (accounts : A → List (Constraint PublicKey)) (program : PublicKey)
      (metas : List (AccountMeta PublicKey))
      → Reads r [] a
      → accepts (accounts a) metas ≡ true
      → handle name r accounts
          (record { program_id = program; account_keys = metas; bytes = discriminator sdk name })
        ≡ some a
  handle_bare-eq name accounts program metas reads accepted =
      rw append-nil at (handle-eq name accounts program metas reads accepted)

  pub handle-rejects :
      {A : Type 0} (name : Bytes) (r : Reader A) (accounts : A → List (Constraint PublicKey))
      (ix : TransactionInstruction PublicKey)
      → ((a : A) → accepts (accounts a) ix.account_keys ≡ false)
      → handle name r accounts ix ≡ none
  unfolding handle
  handle-rejects name r accounts ix rejected =
      elim (Bool-cases (bytes_eq (take 8 ix.bytes) (discriminator sdk name))) [
        | inr other ↦ rw other refl
        | inl same ↦ elim (Result-cases (decode_from_8 r ix.bytes)) [
          | inl (a, read) ↦ rw (same, read, rejected a) refl
          | inr (e, fails) ↦ rw (same, fails) refl
        ]
      ]

  pub equals_refl : (k : PublicKey) → equals k k ≡ true
  equals_refl k = (web3.equals_iff k k).1 refl
