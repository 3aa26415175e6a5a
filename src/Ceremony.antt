-- ===== src/Ceremony.antt =====
-- scripts/ceremony-verify.mjs: the check of the rounds of the ceremony. Text is a list of UTF-16 units,
-- what is printed is left out, and the files of a round, the hash and snarkjs are parameters.
pub mod Verified
use kirite.Prelude.{
  ℕ, zero, suc, ◌+◌, ◌≡◌, Bool, true, false, ◌&&◌, ◌||◌, List, [], ◌∷◌, Option, none, some, leb,
  ◌==◌, bytes_eq, if◌then◌else◌,
}
use kirite.Bytes.{Bytes}
use kirite.Events.{Line, strip_prefix}

-- The files of a round, and whether `snarkjs zkey verify` takes its key.
pub record Round : Type 0 where
  pub zkey : Option Bytes
  pub attestation : Option Line
  pub snarkjs_ok : Bool

-- "sha256(zkey):"
abbrev pub sha_label : Line
sha_label = 115 ∷ 104 ∷ 97 ∷ 50 ∷ 53 ∷ 54 ∷ 40 ∷ 122 ∷ 107 ∷ 101 ∷ 121 ∷ 41 ∷ 58 ∷ []

-- `\s`
unfoldable pub is_space : ℕ → Bool
is_space c =
    ((leb 9 c && leb c 13)
      || (c == 32)
      || (c == 160)
      || (c == 0x1680)
      || (leb 0x2000 c && leb c 0x200a))
    || ((c == 0x2028)
        || (c == 0x2029)
        || (c == 0x202f)
        || (c == 0x205f)
        || (c == 0x3000)
        || (c == 0xfeff))

unfoldable pub skip_spaces : Line → Line
unfolding is_space
skip_spaces [] = []
skip_spaces (c ∷ cs) = let rest = skip_spaces cs in if is_space c then rest else c ∷ cs

-- `[0-9a-f]`
pub is_hex : ℕ → Bool
is_hex c = (leb 48 c && leb c 57) || (leb 97 c && leb c 102)

-- `[0-9a-f]{n}`
pub take_hex : ℕ → Line → Option Line
unfolding is_hex
take_hex zero line = some []
take_hex (suc n) [] = none
take_hex (suc n) (c ∷ cs) =
    if is_hex c
    then elim (take_hex n cs) [ none ↦ none | some digits ↦ some (c ∷ digits) ]
    else none

-- The group of `/sha256\(zkey\):\s*([0-9a-f]{64})/` at the start of the text.
pub match_here : Line → Option Line
unfolding skip_spaces take_hex
match_here text = elim (strip_prefix sha_label text) [
  | none ↦ none
  | some rest ↦ take_hex 64 (skip_spaces rest)
]

-- The group of the first match.
pub attested_sha : Line → Option Line
unfolding match_here
attested_sha [] = match_here []
attested_sha (c ∷ cs) = elim (match_here (c ∷ cs)) [ none ↦ attested_sha cs | some sha ↦ some sha ]

-- Whether the attestation stands in the way of the key on disk.
pub attestation_ok : Line → Option Line → Bool
unfolding attested_sha
attestation_ok on_disk none = true
attestation_ok on_disk (some text) = elim (attested_sha text) [
  | none ↦ true
  | some sha ↦ bytes_eq sha on_disk
]

-- The argument: none, `--all`, or what `Number` makes of it.
pub data Argument : Type 0 where
  missing every_round : Argument
  single : ℕ → Argument

module _ (sha256_hex : Bytes → Line) where
  pub verify_one : Round → Bool
  unfolding attestation_ok
  verify_one r = elim r.zkey [
    | none ↦ false
    | some key ↦ if attestation_ok (sha256_hex key) r.attestation then r.snarkjs_ok else false
  ]

  -- The loop over the rounds, which goes on after a round that fails.
  pub verify_rounds : (ℕ → Round) → List ℕ → Bool → Bool
  unfolding verify_one
  verify_rounds files [] all_ok = all_ok
  verify_rounds files (n ∷ rest) all_ok =
      verify_rounds files rest (if verify_one (files n) then all_ok else false)

  pub exit_code : (ℕ → Round) → List ℕ → Bool → ℕ
  unfolding verify_rounds
  exit_code files [] all_ok = 1
  exit_code files (n ∷ rest) all_ok = if verify_rounds files (n ∷ rest) all_ok then 0 else 1

  -- `main`, on the rounds that `listRounds` gives.
  pub verify_ceremony : (ℕ → Round) → List ℕ → Argument → ℕ
  unfolding exit_code
  verify_ceremony files listed missing = 1
  verify_ceremony files listed every_round = exit_code files listed true
  verify_ceremony files listed (single n) = exit_code files (n ∷ []) true
