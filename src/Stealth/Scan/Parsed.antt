-- ===== src/Stealth/Scan/Parsed.antt =====
-- What parses as an announcement has an ephemeral key of 32 bytes.
use kirite.Prelude.{
  ok-injective, ℕ, ◌+◌, ◌≡◌, inl, inr, ap, ok, length, take, drop, length-take, length-drop,
  Result-cases, arith,
}
use kirite.Bytes.{Bytes}
use kirite.Buffer
use kirite.Buffer.Reads.{Reader-bind-inv, decode_from_8-inv, read_uint_le-inside}
use kirite.Buffer.{read_slice, read_uint_le, uint_le_at, read_key, decode_from_8}
use kirite.Events.{Line}
use kirite.Stealth.Parsers.{StealthAnnouncement, parse_announcement_account, read_announcement}
use kirite.Web3.{Web3}

read_slice-inv :
    (n : ℕ) (buf : Bytes) (o : ℕ) {slice : Bytes} {next : ℕ}
    → read_slice n buf o ≡ ok (slice, next)
    → (take n (drop o buf) ≡ slice) × (o + n ≡ next)
unfolding read_slice
read_slice-inv n buf o h =
    let same = ok-injective _ _ h in
    (ap (λ (t : Bytes × ℕ). t.0) same, ap (λ (t : Bytes × ℕ). t.1) same)

read_key-moves :
    (w : Web3) (buf : Bytes) (o : ℕ) {k : w.PublicKey} {next : ℕ}
    → read_key w buf o ≡ ok (k, next)
    → o + 32 ≡ next
unfolding read_key Buffer.◌>>=◌ read_slice
read_key-moves w buf o h = elim (Result-cases (w.of_bytes (take 32 (drop o buf)))) [
  | inl (key, parsed) ↦
      ap (λ (t : w.PublicKey × ℕ). t.1) (ok-injective _ _ (rw (parsed, read_key) at h))
  | inr (e, fails) ↦ cc (rw (fails, read_key) at h)
]

-- The ephemeral key of what parses has its 32 bytes: the view tag is read behind it.
pub parse_announcement_account-length :
    (w : Web3) (to_base64 : Bytes → Line) (account : Bytes) {a : StealthAnnouncement w.PublicKey}
    → parse_announcement_account w to_base64 account ≡ ok a
    → length a.ephemeral_pubkey ≡ 32
unfolding parse_announcement_account read_announcement Buffer.pure
parse_announcement_account-length w to_base64 account {a} h =
    let (end, whole) = decode_from_8-inv (read_announcement w to_base64) account h in
    let (ephemeral, o1, first, after1) = Reader-bind-inv _ _ account 8 whole in
    let (address, o2, second, after2) = Reader-bind-inv _ _ account o1 after1 in
    let (tag, o3, third, after3) = Reader-bind-inv _ _ account o2 after2 in
    let (slot, o4, fourth, after4) = Reader-bind-inv _ _ account o3 after3 in
    let (timestamp, o5, fifth, after5) = Reader-bind-inv _ _ account o4 after4 in
    let (signature, o6, sixth, after6) = Reader-bind-inv _ _ account o5 after5 in
    let inside = read_uint_le-inside 1 account o2 third in
    let (slice, moved) = read_slice-inv 32 account 8 first in
    let moved' = read_key-moves w account o1 second in
    let sized : length ephemeral ≡ 32 = rw (← slice) (
      omega
        (arith, length-take 32 (drop 8 account), length-drop 8 account, inside, moved, moved')) in
    let same = ok-injective _ _ after6 in
    rw (← ap (λ (t : StealthAnnouncement w.PublicKey × ℕ). length t.0.ephemeral_pubkey) same) sized
