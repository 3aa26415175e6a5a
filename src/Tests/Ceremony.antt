-- ===== src/Tests/Ceremony.antt =====
-- The check of the ceremony's rounds on two rounds.
use kirite.Prelude.{ℕ, ◌≡◌, ◌↔◌, true, [], ◌∷◌, none, some, replicate, All}
use kirite.Bytes.{Bytes}
use kirite.Events.{Line}
use kirite.Ceremony.{Round, every_round, verify_ceremony}
use kirite.Ceremony.Verified.{Valid, verify_ceremony_iff}

abbrev digest : Bytes → Line
digest key = replicate 64 97

abbrev files : ℕ → Round
files n = record { zkey = some (n ∷ []); attestation = none; snarkjs_ok = true }

verify_ceremony_iff_example :
    (verify_ceremony digest files (1 ∷ 2 ∷ []) every_round ≡ 0)
    ↔ All (λ k. Valid digest (files k)) (1 ∷ 2 ∷ [])
verify_ceremony_iff_example = verify_ceremony_iff digest files 1 (2 ∷ [])
