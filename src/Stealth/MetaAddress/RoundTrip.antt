-- ===== src/Stealth/MetaAddress/RoundTrip.antt =====
-- A meta-address is read back from its text, and which meta-addresses are valid.
use kirite.Prelude.{
  ==_iff, ℕ, zero, suc, ◌+◌, ◌*◌, ◌/◌, ◌%◌, ◌≡◌, ◌↔◌, refl, ap, ◌<◌, ◌∙◌, Bool, true, false, not,
  ◌&&◌, ◌||◌, [], ◌∷◌, ◌++◌, some, ok, length, take, All, append_assoc, length-append,
  take-append_of_length, drop-append_of_length, Bool-cases, inl, inr, ◌==◌, if◌then◌else◌, arith,
  append-nil, sym,
}
use kirite.Bytes.{Bytes, IsBytes}
use kirite.Stealth.{StealthMetaAddress}
use kirite.Stealth.MetaAddress.{
  hex_digit, to_hex_text, hex_value, hex_pair, of_hex_text, serialize_stealth_meta_address,
  deserialize_stealth_meta_address, is_nonzero_at, nonzero_loop, validate_stealth_meta_address,
}

hex_value-hex_digit : (n : ℕ) → n < 16 → hex_value (hex_digit n) ≡ some n
unfolding hex_value hex_digit
hex_value-hex_digit n h = ground arith

hex_pair-digits : (b : ℕ) → b < 256 → hex_pair (hex_digit (b / 16)) (hex_digit (b % 16)) ≡ some b
unfolding hex_pair
hex_pair-digits b small =
    let whole : b / 16 * 16 + b % 16 ≡ b = omega arith in
    rw
      (
        hex_value-hex_digit (b / 16) (omega arith),
        hex_value-hex_digit (b % 16) (omega arith),
        hex_pair,
        whole,
      )
      refl

of_hex_text-to_hex_text : (bs : Bytes) → IsBytes bs → of_hex_text (to_hex_text bs) ≡ bs
unfolding of_hex_text to_hex_text
of_hex_text-to_hex_text [] h = refl
of_hex_text-to_hex_text (b ∷ bs) (small, h) =
    rw (hex_pair-digits b small, of_hex_text, of_hex_text-to_hex_text bs h) refl

length-to_hex_text : (bs : Bytes) → length (to_hex_text bs) ≡ 2 * length bs
unfolding to_hex_text
length-to_hex_text [] = omega arith
length-to_hex_text (b ∷ bs) = omega (arith, length-to_hex_text bs)

-- A meta-address of two keys of 32 bytes is read back from the text that it is serialized to.
pub deserialize-serialize :
    (meta : StealthMetaAddress)
    → length meta.spending_key ≡ 32
    → length meta.viewing_key ≡ 32
    → IsBytes meta.spending_key
    → IsBytes meta.viewing_key
    → deserialize_stealth_meta_address (serialize_stealth_meta_address meta) ≡ ok meta
unfolding deserialize_stealth_meta_address serialize_stealth_meta_address
deserialize-serialize meta len len' spending viewing =
    let first = to_hex_text meta.spending_key in
    let second = to_hex_text meta.viewing_key in
    let long : length first ≡ 64 = omega (arith, length-to_hex_text meta.spending_key) in
    let long' : length second ≡ 64 = omega (arith, length-to_hex_text meta.viewing_key) in
    let whole : length (first ++ second) ≡ 128 = omega (arith, length-append first second) in
    let tail : take 64 second ≡ second =
      ap (take 64) (sym (append-nil second)) ∙ take-append_of_length 64 second [] long' in
    rw
      (
        whole,
        take-append_of_length 64 first second long,
        drop-append_of_length 64 first second long,
        tail,
        of_hex_text-to_hex_text meta.spending_key spending,
        of_hex_text-to_hex_text meta.viewing_key viewing,
      )
      refl

-- Whether one of the `rounds` places from `i` on is not zero.
any_from : ℕ → ℕ → Bytes → Bool
any_from zero i bs = false
any_from (suc rounds) i bs = is_nonzero_at bs i || any_from rounds (i + 1) bs

or-if : (n s r : Bool) → ((if n then true else s) || r) ≡ (s || (n || r))
or-if true true r = refl
or-if true false r = refl
or-if false s r = refl

or-false : (s : Bool) → (s || false) ≡ s
or-false true = refl
or-false false = refl

nonzero_loop-any :
    (rounds i : ℕ) (meta : StealthMetaAddress) (s v : Bool)
    → nonzero_loop rounds i meta s v
      ≡ ((s || any_from rounds i meta.spending_key) && (v || any_from rounds i meta.viewing_key))
unfolding nonzero_loop any_from
nonzero_loop-any zero i meta s v = rw (or-false s, or-false v) refl
nonzero_loop-any (suc rounds) i meta s v =
    rw
      (
        ← or-if (is_nonzero_at meta.spending_key i) s (any_from rounds (i + 1) meta.spending_key),
        ← or-if (is_nonzero_at meta.viewing_key i) v (any_from rounds (i + 1) meta.viewing_key),
      )
      (nonzero_loop-any rounds (i + 1) meta _ _)

is_nonzero_at-append :
    (before : Bytes) (b : ℕ) (bs : Bytes)
    → is_nonzero_at (before ++ b ∷ bs) (length before) ≡ not (b == 0)
is_nonzero_at-append [] b bs = refl
is_nonzero_at-append (x ∷ before) b bs = is_nonzero_at-append before b bs

any_nonzero : Bytes → Bool
any_nonzero [] = false
any_nonzero (b ∷ bs) = not (b == 0) || any_nonzero bs

abbrev IsZero : Bytes → Type 0
IsZero bs = All (λ b. b ≡ 0) bs

any_nonzero_iff : (bs : Bytes) → (any_nonzero bs ≡ true) ↔ (¬ IsZero bs)
unfolding any_nonzero
any_nonzero_iff [] = ((λ h. cc), (λ h. absurd (h tt)))
any_nonzero_iff (b ∷ bs) = elim (Bool-cases (b == 0)) [
  | inl zero_here ↦ rw zero_here (
    (λ h all. (any_nonzero_iff bs).0 h all.1),
    (λ h. (any_nonzero_iff bs).1 (λ all. h ((==_iff b 0).0 zero_here, all))),
  )
  | inr nonzero ↦ rw nonzero ((λ h all. cc ((==_iff b 0).1 all.0)), (λ h. refl))
]

-- The places of the list itself: none is beyond its end.
any_from-any :
    (before bs : Bytes) → any_from (length bs) (length before) (before ++ bs) ≡ any_nonzero bs
unfolding any_from any_nonzero
any_from-any before [] = refl
any_from-any before (b ∷ bs) =
    let next : length before + 1 ≡ length (before ++ b ∷ []) =
      omega (arith, length-append before (b ∷ [])) in
    let rest : any_from (length bs) (length before + 1) (before ++ b ∷ bs) ≡ any_nonzero bs =
      rw (next, ← append_assoc before (b ∷ []) bs) (any_from-any (before ++ b ∷ []) bs) in
    cc (is_nonzero_at-append before b bs, rest)

nonzero_loop-places :
    (meta : StealthMetaAddress)
    → length meta.spending_key ≡ 32
    → length meta.viewing_key ≡ 32
    → nonzero_loop 32 0 meta false false
      ≡ (any_nonzero meta.spending_key && any_nonzero meta.viewing_key)
nonzero_loop-places meta len len' =
    nonzero_loop-any 32 0 meta false false
    ∙ cc (
      rw len at (any_from-any [] meta.spending_key),
      rw len' at (any_from-any [] meta.viewing_key),
    )

-- `validateStealthMetaAddress` accepts exactly the meta-addresses of two keys of 32 bytes of which
-- neither is all zeros.
validate_stealth_meta_address_iff :
    (meta : StealthMetaAddress)
    → (validate_stealth_meta_address meta ≡ true) ↔ (
        (length meta.spending_key ≡ 32)
        × (length meta.viewing_key ≡ 32)
        × (¬ IsZero meta.spending_key)
        × (¬ IsZero meta.viewing_key))
unfolding validate_stealth_meta_address
validate_stealth_meta_address_iff meta = (
  (λ h.
      let len : length meta.spending_key ≡ 32 = ground arith in
      let len' : length meta.viewing_key ≡ 32 = ground arith in
      let loop = nonzero_loop-places meta len len' in
      let both : (any_nonzero meta.spending_key && any_nonzero meta.viewing_key) ≡ true =
        ground (arith, loop) in
      (
        len,
        len',
        (any_nonzero_iff meta.spending_key).0 (ground arith),
        (any_nonzero_iff meta.viewing_key).0 (ground arith),
      )),
  (λ (len, len', spending, viewing).
      let s = (any_nonzero_iff meta.spending_key).1 spending in
      let v = (any_nonzero_iff meta.viewing_key).1 viewing in
      rw (len, len', nonzero_loop-places meta len len', s, v) refl),
)
