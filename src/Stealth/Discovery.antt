-- ===== src/Stealth/Discovery.antt =====
-- The receiver of a stealth payment finds it: the two sides of the key agreement compute one address.
use kirite.Prelude.{
  sym, ℕ, zero, suc, ◌≡◌, refl, ap, ◌∙◌, ◌<◌, true, [], ◌∷◌, ◌++◌, ok, length, length-take, take,
  ==_iff, codes, arith,
}
use kirite.Bytes.{Bytes}
use kirite.Stealth.{
  Keys, BoxKeypair, StealthMetaAddress, StealthAddress, update, clamp, first_or, first_is, zeros,
  hash256, derive_box_keypair, derive_viewing_keypair, derive_spending_keypair,
  compute_shared_secret, generate_stealth_meta_address, shared_hash, stealth_seed,
  stealth_keypair_of, generate_stealth_address, check_view_tag, derive_stealth_spending_key,
  recover_stealth_keypair,
}

length-update : (i : ℕ) (f : ℕ → ℕ) (bs : Bytes) → length (update i f bs) ≡ length bs
length-update i f [] = refl
length-update zero f (b ∷ bs) = refl
length-update (suc i) f (b ∷ bs) = ap suc (length-update i f bs)

length-clamp : (bs : Bytes) → length (clamp bs) ≡ length bs
unfolding clamp
length-clamp bs = length-update 31 _ _ ∙ (length-update 31 _ _ ∙ length-update 0 _ bs)

first_is-first_or : (bs : Bytes) → 0 < length bs → first_is bs (first_or bs) ≡ true
first_is-first_or [] h = absurd (omega arith)
first_is-first_or (b ∷ bs) h = (==_iff b b).1 refl

module _ (keys : Keys) where
  open keys use {web3, hash, box_public_key, before, Keypair, secret_key, from_seed}
  open web3 use {PublicKey}

  length-hash256 : (bs : Bytes) → length (hash256 keys bs) ≡ 32
  unfolding hash256
  length-hash256 bs = omega (arith, length-take 32 (hash bs), keys.length-hash bs)

  -- A derived key pair: a secret of 32 bytes and its public key.
  record IsPair (pair : BoxKeypair) : Type 0 where
    matches : box_public_key pair.secret_key ≡ ok pair.public_key
    secret_length : length pair.secret_key ≡ 32
    public_length : length pair.public_key ≡ 32

  derive_box_keypair-IsPair :
      (domain : Bytes) (wallet : Keypair)
      → (pair : BoxKeypair) × (derive_box_keypair keys domain wallet ≡ ok pair) × IsPair pair
  unfolding derive_box_keypair
  derive_box_keypair-IsPair domain wallet =
      let secret = clamp (take 32 (hash (domain ++ take 32 (secret_key wallet)))) in
      let sized : length secret ≡ 32 = omega (
        arith,
        length-clamp (take 32 (hash (domain ++ take 32 (secret_key wallet)))),
        length-take 32 (hash (domain ++ take 32 (secret_key wallet))),
        keys.length-hash (domain ++ take 32 (secret_key wallet)),
      ) in
      let (p, same, long) = keys.box_public_key-sized secret sized in
      (
        record { public_key = p; secret_key = secret },
        rw same,
        record { matches = same; secret_length = sized; public_length = long },
      )

  -- The sender's key pair for an address, from the secret that it draws.
  sent :
      (meta : StealthMetaAddress) (draw : Bytes)
      → length draw ≡ 32
      → length meta.viewing_key ≡ 32
      → (kp : Keypair) × (ephemeral : Bytes) × (shared : Bytes) × (box_public_key (clamp draw)
          ≡ ok ephemeral)
        × (before meta.viewing_key (clamp draw) ≡ ok shared)
        × (from_seed (stealth_seed keys meta.spending_key (shared_hash keys shared)) ≡ ok kp)
        × (stealth_keypair_of keys meta draw ≡ ok (kp, ephemeral, shared_hash keys shared))
  unfolding stealth_keypair_of compute_shared_secret stealth_seed
  sent meta draw len sized =
      let long : length (clamp draw) ≡ 32 = length-clamp draw ∙ len in
      let (ephemeral, pair, _) = keys.box_public_key-sized (clamp draw) long in
      let (shared, agreed) = keys.before-sized meta.viewing_key (clamp draw) sized long in
      let (kp, made) =
        keys.from_seed-sized (stealth_seed keys meta.spending_key (shared_hash keys shared))
          (length-hash256 _) in
      (kp, ephemeral, shared, pair, agreed, made, rw (pair, agreed, made) refl)

  -- The receiver's tag and key pair, from the same shared secret.
  received :
      (view spend : BoxKeypair) (ephemeral shared : Bytes) (kp : Keypair)
      → IsPair spend
      → before ephemeral view.secret_key ≡ ok shared
      → from_seed (stealth_seed keys spend.public_key (shared_hash keys shared)) ≡ ok kp
      → (check_view_tag keys ephemeral (first_or (shared_hash keys shared)) view.secret_key
          ≡ ok true)
        × (derive_stealth_spending_key keys ephemeral view.secret_key spend.secret_key ≡ ok kp)
  unfolding check_view_tag derive_stealth_spending_key compute_shared_secret shared_hash
  received view spend ephemeral shared kp pair agreed made =
      let tagged =
        first_is-first_or (shared_hash keys shared)
          (omega (arith, length-hash256 (codes "kirite-stealth-v1" ++ shared))) in
      (rw agreed (ap ok tagged), rw (agreed, pair.matches) made)

  -- A payment to a wallet's meta-address is found by the wallet: its derivations and the sender's
  -- succeed on 32 drawn bytes, the view tag passes the wallet's check, and the key pair that the wallet
  -- derives is one of the sender's address.
  pub generated_address-found :
      (wallet : Keypair) (draw : Bytes)
      → length draw ≡ 32
      → (view : BoxKeypair) × (spend : BoxKeypair) × (meta : StealthMetaAddress)
        × (sent_to : StealthAddress PublicKey) × (kp : Keypair) × (derive_viewing_keypair keys
              wallet
            ≡ ok view)
        × (derive_spending_keypair keys wallet ≡ ok spend)
        × (generate_stealth_meta_address keys wallet ≡ ok meta)
        × (generate_stealth_address keys meta draw ≡ ok sent_to)
        × (check_view_tag keys sent_to.ephemeral_pubkey sent_to.view_tag view.secret_key ≡ ok true)
        × (derive_stealth_spending_key keys sent_to.ephemeral_pubkey view.secret_key
              spend.secret_key
            ≡ ok kp)
        × (keys.public_key kp ≡ sent_to.address)
  unfolding derive_viewing_keypair derive_spending_keypair generate_stealth_meta_address
      generate_stealth_address
  generated_address-found wallet draw len =
      let (view, viewing, view_pair) =
        derive_box_keypair-IsPair (codes "kirite-viewing-v1") wallet in
      let (spend, spending, spend_pair) =
        derive_box_keypair-IsPair (codes "kirite-spending-v1") wallet in
      let meta : StealthMetaAddress = record {
        spending_key = spend.public_key;
        viewing_key = view.public_key;
      } in
      let (kp, ephemeral, shared, pair, agreed, made, whole) =
        sent meta draw len view_pair.public_length in
      let same = sym (
        keys.before_agrees (clamp draw) view.secret_key ephemeral view.public_key pair
          view_pair.matches) in
      let (tagged, derived) =
        received view spend ephemeral shared kp spend_pair (sym same ∙ agreed) made in
      (
        view,
        spend,
        meta,
        record {
          address = keys.public_key kp;
          ephemeral_pubkey = ephemeral;
          view_tag = first_or (shared_hash keys shared);
        },
        kp,
        viewing,
        spending,
        rw (viewing, spending) refl,
        rw (spend_pair.public_length, view_pair.public_length, whole) refl,
        tagged,
        derived,
        refl,
      )

  -- The viewing secret and the public spending key are enough for the key pair of a stealth address:
  -- the key pair that `recoverStealthAddress` computes on its way from them is the one that
  -- `deriveStealthSpendingKey` computes from both secrets.
  pub viewing_secret-spends :
      (ephemeral viewing_secret spending_secret : Bytes) (meta : StealthMetaAddress)
      → length ephemeral ≡ 32
      → length viewing_secret ≡ 32
      → box_public_key spending_secret ≡ ok meta.spending_key
      → recover_stealth_keypair keys ephemeral meta viewing_secret
        ≡ derive_stealth_spending_key keys ephemeral viewing_secret spending_secret
  unfolding recover_stealth_keypair derive_stealth_spending_key compute_shared_secret
  viewing_secret-spends ephemeral viewing_secret spending_secret meta len len' pair =
      let (shared, agreed) = keys.before-sized ephemeral viewing_secret len len' in
      let (unused, zero_pair, _) = keys.box_public_key-sized zeros refl in
      let (other, made) =
        keys.from_seed-sized (stealth_seed keys unused (shared_hash keys shared))
          (length-hash256 _) in
      rw (agreed, pair, zero_pair, made) refl
