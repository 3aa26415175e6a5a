-- ===== src/Ceremony/Verified.antt =====
-- What the exit code 0 of the script stands for.
use kirite.Prelude.{
  ℕ, ◌≡◌, ◌↔◌, ◌⊎◌, inl, inr, refl, ap, ◌∙◌, Bool, true, false, List, [], ◌∷◌, Option, none, some,
  Option-cases, All, Bool-cases, bytes_eq_refl, eq_of_bytes_eq, if◌then◌else◌, arith,
}
use kirite.Bytes.{Bytes}
use kirite.Events.{Line}
use kirite.Ceremony.{
  Round, attested_sha, attestation_ok, every_round, verify_one, verify_rounds, exit_code,
  verify_ceremony,
}

-- The attestation names no hash, or that of the key.
abbrev pub Attests : Line → Option Line → Type 0
Attests on_disk none = Unit
Attests on_disk (some text) = (attested_sha text ≡ none) ⊎ (attested_sha text ≡ some on_disk)

module _ (sha256_hex : Bytes → Line) where
  -- The key is there, snarkjs takes it, and the attestation does not name another hash.
  pub record Valid (r : Round) : Type 0 where
    pub key : Bytes
    pub there : r.zkey ≡ some key
    pub attests : Attests (sha256_hex key) r.attestation
    pub verified : r.snarkjs_ok ≡ true

  attestation_ok-Attests :
      (on_disk : Line) (att : Option Line) → attestation_ok on_disk att ≡ true → Attests on_disk att
  unfolding attestation_ok
  attestation_ok-Attests on_disk none h = tt
  attestation_ok-Attests on_disk (some text) h = elim (Option-cases (attested_sha text)) [
    | inl unnamed ↦ inl unnamed
    | inr (sha, named) ↦
        inr (named ∙ ap some (eq_of_bytes_eq sha on_disk (rw (attestation_ok, named) at h)))
  ]

  Attests-attestation_ok :
      (on_disk : Line) (att : Option Line) → Attests on_disk att → attestation_ok on_disk att ≡ true
  unfolding attestation_ok
  Attests-attestation_ok on_disk none h = refl
  Attests-attestation_ok on_disk (some text) (inl unnamed) = rw (attestation_ok, unnamed) refl
  Attests-attestation_ok on_disk (some text) (inr named) =
      rw (attestation_ok, named) (bytes_eq_refl on_disk)

  verify_one-Valid : (r : Round) → verify_one sha256_hex r ≡ true → Valid r
  unfolding verify_one
  verify_one-Valid r h = elim (Option-cases r.zkey) [
    | inl gone ↦ absurd (cc (rw gone at h))
    | inr (key, there) ↦ elim (Bool-cases (attestation_ok (sha256_hex key) r.attestation)) [
      | inl fine ↦ record {
        key = key;
        there = there;
        attests = attestation_ok-Attests (sha256_hex key) r.attestation fine;
        verified = rw (there, fine) at h;
      }
      | inr bad ↦ absurd (cc (rw (there, bad) at h))
    ]
  ]

  Valid-verify_one : (r : Round) → Valid r → verify_one sha256_hex r ≡ true
  unfolding verify_one
  Valid-verify_one r v =
      rw (v.there, Attests-attestation_ok (sha256_hex v.key) r.attestation v.attests, v.verified)
        refl

  verify_rounds-false :
      (files : ℕ → Round) (ns : List ℕ) → verify_rounds sha256_hex files ns false ≡ false
  unfolding verify_rounds
  verify_rounds-false files [] = refl
  verify_rounds-false files (n ∷ ns) = elim (Bool-cases (verify_one sha256_hex (files n))) [
    | inl fine ↦ rw fine (verify_rounds-false files ns)
    | inr bad ↦ rw bad (verify_rounds-false files ns)
  ]

  verify_rounds-All :
      (files : ℕ → Round) (ns : List ℕ)
      → verify_rounds sha256_hex files ns true ≡ true
      → All (λ n. Valid (files n)) ns
  unfolding verify_rounds
  verify_rounds-All files [] h = tt
  verify_rounds-All files (n ∷ ns) h = elim (Bool-cases (verify_one sha256_hex (files n))) [
    | inl fine ↦ (verify_one-Valid (files n) fine, verify_rounds-All files ns (rw fine at h))
    | inr bad ↦ absurd (cc (rw (bad, verify_rounds-false files ns) at h))
  ]

  All-verify_rounds :
      (files : ℕ → Round) (ns : List ℕ)
      → All (λ n. Valid (files n)) ns
      → verify_rounds sha256_hex files ns true ≡ true
  unfolding verify_rounds
  All-verify_rounds files [] h = refl
  All-verify_rounds files (n ∷ ns) (valid, h) =
      rw (Valid-verify_one (files n) valid) (All-verify_rounds files ns h)

  exit_code-zero : (b : Bool) {code : ℕ} → code ≡ (if b then 0 else 1) → code ≡ 0 → b ≡ true
  exit_code-zero true same h = refl
  exit_code-zero false same h = absurd (omega arith)

  -- With `--all` and a round to check, the script exits with 0 exactly where every round that is
  -- listed has its key, which snarkjs takes, and an attestation that names no hash or that of the key.
  pub verify_ceremony_iff :
      (files : ℕ → Round) (n : ℕ) (ns : List ℕ)
      → (verify_ceremony sha256_hex files (n ∷ ns) every_round ≡ 0)
        ↔ All (λ k. Valid (files k)) (n ∷ ns)
  unfolding verify_ceremony exit_code
  verify_ceremony_iff files n ns = (
    λ h. verify_rounds-All files (n ∷ ns) (exit_code-zero _ refl h),
    λ h. rw (All-verify_rounds files (n ∷ ns) h) refl,
  )
