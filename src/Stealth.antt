-- ===== src/Stealth.antt =====
-- The stealth keys and addresses of sdk/src/utils/keypair.ts and sdk/src/stealth/address.ts. A throw of
-- tweetnacl or of @solana/web3.js passes through; `randomBytes(32)` is an argument.
pub mod Discovery
pub mod MetaAddress
pub mod Parsers
pub mod Registry
pub mod Scan
use kirite.Prelude.{
  ℕ, zero, suc, ◌+◌, ◌^◌, ◌<◌, ◌≡◌, Bool, true, false, not, ◌&&◌, ◌||◌, ℤ, List, [], ◌∷◌, ◌++◌,
  Option, none, some, Result, ok, err, Error, ◌>>=◌, length, take, replicate, ltb, ◌==◌, bit_and,
  bit_or, if◌then◌else◌, codes,
}
use kirite.Bytes.{Bytes}
use kirite.Buffer.{u32_le}
use kirite.Web3.{Web3}

-- What the SDK uses of tweetnacl, and of the key pairs of @solana/web3.js.
pub record Keys : Type 1 where
  pub web3 : Web3
  -- `nacl.hash`, SHA-512.
  pub hash : Bytes → Bytes
  pub length-hash : (bs : Bytes) → length (hash bs) ≡ 64
  -- `nacl.box.keyPair.fromSecretKey(secret).publicKey`
  pub box_public_key : Bytes → Result Bytes
  pub box_public_key-sized :
      (secret : Bytes)
      → length secret ≡ 32
      → (p : Bytes) × (box_public_key secret ≡ ok p) × (length p ≡ 32)
  -- `nacl.box.before(publicKey, secretKey)`
  pub before : Bytes → Bytes → Result Bytes
  pub before-sized :
      (p secret : Bytes)
      → length p ≡ 32
      → length secret ≡ 32
      → (shared : Bytes) × (before p secret ≡ ok shared)
  -- The key agreement of X25519.
  pub before_agrees :
      (a b p q : Bytes)
      → box_public_key a ≡ ok p
      → box_public_key b ≡ ok q
      → before p b ≡ before q a
  pub Keypair : Type 0
  pub public_key : Keypair → web3.PublicKey
  pub secret_key : Keypair → Bytes
  -- `Keypair.fromSeed`
  pub from_seed : Bytes → Result Keypair
  pub from_seed-sized :
      (seed : Bytes) → length seed ≡ 32 → (kp : Keypair) × (from_seed seed ≡ ok kp)

pub record BoxKeypair : Type 0 where
  pub public_key : Bytes
  pub secret_key : Bytes

pub record StealthMetaAddress : Type 0 where
  pub spending_key : Bytes
  pub viewing_key : Bytes

pub record StealthAddress (K : Type 0) : Type 0 where
  pub address : K
  pub ephemeral_pubkey : Bytes
  pub view_tag : ℕ

-- `array[i] = f(array[i])`; beyond the end of the array nothing is written.
abbrev pub update : ℕ → (ℕ → ℕ) → Bytes → Bytes
update i f [] = []
update zero f (b ∷ bs) = f b ∷ bs
update (suc i) f (b ∷ bs) = b ∷ update i f bs

-- The three assignments to `clampedSecret`.
pub clamp : Bytes → Bytes
clamp secret =
    update 31 (λ b. bit_or b 64)
      (update 31 (λ b. bit_and b 127) (update 0 (λ b. bit_and b 248) secret))

-- `sharedHash[0]`, of a hash, which is not empty.
abbrev pub first_or : Bytes → ℕ
first_or [] = 0
first_or (b ∷ bs) = b

abbrev pub zeros : Bytes
zeros = replicate 32 0

-- `array[0] === tag`, false of an empty array.
abbrev pub first_is : Bytes → ℕ → Bool
first_is [] tag = false
first_is (b ∷ bs) tag = b == tag

module _ (keys : Keys) where
  open keys use {web3, hash, box_public_key, before, Keypair, secret_key, from_seed}
  open web3 use {PublicKey}

  -- keypair.ts

  unfoldable pub hash256 : Bytes → Bytes
  hash256 input = take 32 (hash input)

  pub derive_keypair : Bytes → ℤ → Result Keypair
  derive_keypair seed index = do
    index_buf ← u32_le index
    from_seed (take 32 (hash (seed ++ index_buf)))

  -- The common part of `deriveViewingKeypair` and `deriveSpendingKeypair`, which differ in `domain`.
  pub derive_box_keypair : Bytes → Keypair → Result BoxKeypair
  unfolding clamp
  derive_box_keypair domain wallet = do
    let clamped_secret = clamp (take 32 (hash (domain ++ take 32 (secret_key wallet))))
    public_key ← box_public_key clamped_secret
    ok (record { public_key = public_key; secret_key = clamped_secret })

  pub derive_viewing_keypair : Keypair → Result BoxKeypair
  unfolding derive_box_keypair
  derive_viewing_keypair wallet = derive_box_keypair (codes "kirite-viewing-v1") wallet

  pub derive_spending_keypair : Keypair → Result BoxKeypair
  unfolding derive_box_keypair
  derive_spending_keypair wallet = derive_box_keypair (codes "kirite-spending-v1") wallet

  unfoldable pub compute_shared_secret : Bytes → Bytes → Result Bytes
  compute_shared_secret secret_key public_key = before public_key secret_key

  -- address.ts

  pub generate_stealth_meta_address : Keypair → Result StealthMetaAddress
  unfolding derive_viewing_keypair derive_spending_keypair
  generate_stealth_meta_address wallet = do
    viewing ← derive_viewing_keypair wallet
    spending ← derive_spending_keypair wallet
    ok (record { spending_key = spending.public_key; viewing_key = viewing.public_key })

  unfoldable pub shared_hash : Bytes → Bytes
  unfolding hash256
  shared_hash shared = hash256 (codes "kirite-stealth-v1" ++ shared)

  unfoldable pub stealth_seed : Bytes → Bytes → Bytes
  unfolding hash256
  stealth_seed spending_key hashed =
      hash256 (codes "stealth-address-seed" ++ (spending_key ++ hashed))

  -- The address that the sender computes, with the key pair that it holds on the way.
  pub stealth_keypair_of : StealthMetaAddress → Bytes → Result (Keypair × Bytes × Bytes)
  unfolding clamp compute_shared_secret shared_hash stealth_seed
  stealth_keypair_of meta ephemeral_secret = do
    let clamped_secret = clamp ephemeral_secret
    ephemeral ← box_public_key clamped_secret
    shared ← compute_shared_secret clamped_secret meta.viewing_key
    stealth_keypair ← from_seed (stealth_seed meta.spending_key (shared_hash shared))
    ok (stealth_keypair, ephemeral, shared_hash shared)

  pub generate_stealth_address : StealthMetaAddress → Bytes → Result (StealthAddress PublicKey)
  unfolding stealth_keypair_of
  generate_stealth_address meta ephemeral_secret =
      if (length meta.spending_key == 32) && (length meta.viewing_key == 32)
      then (do
        (stealth_keypair, ephemeral, hashed) ← stealth_keypair_of meta ephemeral_secret
        ok (record {
          address = keys.public_key stealth_keypair;
          ephemeral_pubkey = ephemeral;
          view_tag = first_or hashed;
        }))
      else err Error.stealth_address_error

  unfoldable pub check_view_tag : Bytes → ℕ → Bytes → Result Bool
  unfolding compute_shared_secret shared_hash
  check_view_tag ephemeral_pubkey view_tag viewing_secret_key = do
    shared ← compute_shared_secret viewing_secret_key ephemeral_pubkey
    ok (first_is (shared_hash shared) view_tag)

  unfoldable pub derive_stealth_spending_key : Bytes → Bytes → Bytes → Result Keypair
  unfolding compute_shared_secret shared_hash stealth_seed
  derive_stealth_spending_key ephemeral_pubkey viewing_secret_key spending_secret_key = do
    shared ← compute_shared_secret viewing_secret_key ephemeral_pubkey
    spending_key ← box_public_key spending_secret_key
    from_seed (stealth_seed spending_key (shared_hash shared))

  -- The key pair of `recoverStealthAddress`, which returns its public key; what it first derives from a
  -- spending secret of zeros is not used.
  pub recover_stealth_keypair : Bytes → StealthMetaAddress → Bytes → Result Keypair
  unfolding derive_stealth_spending_key compute_shared_secret shared_hash stealth_seed
  recover_stealth_keypair ephemeral_pubkey meta viewing_secret_key = do
    unused ← derive_stealth_spending_key ephemeral_pubkey viewing_secret_key zeros
    shared ← compute_shared_secret viewing_secret_key ephemeral_pubkey
    from_seed (stealth_seed meta.spending_key (shared_hash shared))

  pub recover_stealth_address : Bytes → StealthMetaAddress → Bytes → Result PublicKey
  unfolding recover_stealth_keypair
  recover_stealth_address ephemeral_pubkey meta viewing_secret_key = do
    stealth_keypair ← recover_stealth_keypair ephemeral_pubkey meta viewing_secret_key
    ok (keys.public_key stealth_keypair)
