-- ===== src/Bytes/BigEndian.antt =====
-- Numbers in big-endian bytes.
use kirite.Prelude.{
  ℕ, zero, suc, ◌+◌, ◌*◌, ◌/◌, ◌%◌, ◌^◌, ◌≤◌, ◌<◌, ◌≡◌, ◌∙◌, ap, List, [], ◌∷◌, ◌++◌, append-nil,
  arith, length, All,
}
use native.Mathlib.Nat.{pow-suc}

abbrev pub Bytes : Type 0
Bytes = List ℕ

-- What a `Uint8Array` can hold.
abbrev pub IsBytes : Bytes → Type 0
IsBytes bs = All (λ b. b < 256) bs

-- The `k` lowest bytes of `n`, the lowest last, in front of `acc`.
unfoldable pub be_bytes_onto : ℕ → ℕ → Bytes → Bytes
be_bytes_onto zero n acc = acc
be_bytes_onto (suc k) n acc = be_bytes_onto k (n / 256) ((n % 256) ∷ acc)

unfoldable pub be_bytes : ℕ → ℕ → Bytes
unfolding be_bytes_onto
be_bytes k n = be_bytes_onto k n []

unfoldable pub be_value_from : ℕ → Bytes → ℕ
be_value_from v [] = v
be_value_from v (b ∷ bs) = be_value_from (v * 256 + b) bs

unfoldable pub be_value : Bytes → ℕ
unfolding be_value_from
be_value bs = be_value_from 0 bs

be_value_from-be_bytes_onto :
    (k v n : ℕ) (acc : Bytes)
    → n < 256 ^ k
    → be_value_from v (be_bytes_onto k n acc) ≡ be_value_from (v * 256 ^ k + n) acc
unfolding be_value_from be_bytes_onto
be_value_from-be_bytes_onto zero v n acc h = ap (λ (t : ℕ). be_value_from t acc) (omega arith)
be_value_from-be_bytes_onto (suc k) v n acc h =
    be_value_from-be_bytes_onto k v (n / 256) ((n % 256) ∷ acc) (omega (arith, pow-suc 256 k))
    ∙ ap (λ (t : ℕ). be_value_from t acc) (omega (arith, ap (λ (t : ℕ). v * t) (pow-suc 256 k)))

pub be_value-be_bytes : (k n : ℕ) → n < 256 ^ k → be_value (be_bytes k n) ≡ n
unfolding be_value be_bytes
be_value-be_bytes k n h = be_value_from-be_bytes_onto k 0 n [] h ∙ omega arith

be_bytes_onto-be_value_from :
    (j v : ℕ) (bs acc : Bytes)
    → IsBytes bs
    → be_bytes_onto (length bs + j) (be_value_from v bs) acc ≡ be_bytes_onto j v (bs ++ acc)
unfolding be_value_from be_bytes_onto
be_bytes_onto-be_value_from j v [] acc h = let none_left : 0 + j ≡ j = omega arith in rw none_left
be_bytes_onto-be_value_from j v (b ∷ bs) acc (small, h) =
    let next : length (b ∷ bs) + j ≡ length bs + suc j = omega arith in
    ap (λ (t : ℕ). be_bytes_onto t (be_value_from (v * 256 + b) bs) acc) next
    ∙ be_bytes_onto-be_value_from (suc j) (v * 256 + b) bs acc h
    ∙ split
  where
    split : be_bytes_onto (suc j) (v * 256 + b) (bs ++ acc) ≡ be_bytes_onto j v (b ∷ (bs ++ acc))
    split =
        let high : (v * 256 + b) / 256 ≡ v = omega arith in
        let low : (v * 256 + b) % 256 ≡ b = omega arith in rw (high, low)

pub be_bytes-be_value : (bs : Bytes) → IsBytes bs → be_bytes (length bs) (be_value bs) ≡ bs
unfolding be_value be_bytes
be_bytes-be_value bs h =
    let none_left : length bs ≡ length bs + 0 = omega arith in
    ap (λ (t : ℕ). be_bytes_onto t (be_value_from 0 bs) []) none_left
    ∙ be_bytes_onto-be_value_from 0 0 bs [] h
    ∙ append-nil bs

length-be_bytes_onto : (k n : ℕ) (acc : Bytes) → length (be_bytes_onto k n acc) ≡ k + length acc
unfolding be_bytes_onto
length-be_bytes_onto zero n acc = omega arith
length-be_bytes_onto (suc k) n acc = omega (arith, length-be_bytes_onto k (n / 256) (n % 256 ∷ acc))

pub length-be_bytes : (k n : ℕ) → length (be_bytes k n) ≡ k
unfolding be_bytes
length-be_bytes k n = omega (arith, length-be_bytes_onto k n [])

be_bytes_onto-IsBytes : (k n : ℕ) (acc : Bytes) → IsBytes acc → IsBytes (be_bytes_onto k n acc)
unfolding be_bytes_onto
be_bytes_onto-IsBytes zero n acc h = h
be_bytes_onto-IsBytes (suc k) n acc h =
    be_bytes_onto-IsBytes k (n / 256) (n % 256 ∷ acc) (omega arith, h)

pub be_bytes-IsBytes : (k n : ℕ) → IsBytes (be_bytes k n)
unfolding be_bytes
be_bytes-IsBytes k n = be_bytes_onto-IsBytes k n [] tt

pub be_value_from-lt :
    (v : ℕ) (bs : Bytes) → IsBytes bs → be_value_from v bs < (v + 1) * 256 ^ length bs
unfolding be_value_from
be_value_from-lt v [] h = omega arith
be_value_from-lt v (b ∷ bs) (small, h) =
    let room : (b + 1) * 256 ^ length bs ≤ 256 * 256 ^ length bs = grind arith in
    omega (
      arith,
      room,
      be_value_from-lt (v * 256 + b) bs h,
      ap (λ (t : ℕ). (v + 1) * t) (pow-suc 256 (length bs)),
    )

pub be_value-lt : (bs : Bytes) → IsBytes bs → be_value bs < 256 ^ length bs
unfolding be_value
be_value-lt bs h = omega (arith, be_value_from-lt 0 bs h)

-- The first bytes count for what the others leave room for.
pub be_value_from-eq :
    (v : ℕ) (bs : Bytes) → be_value_from v bs ≡ v * 256 ^ length bs + be_value_from 0 bs
unfolding be_value_from
be_value_from-eq v [] = omega arith
be_value_from-eq v (b ∷ bs) =
    let spread : (v * 256 + b) * 256 ^ length bs
        ≡ v * (256 * 256 ^ length bs) + b * 256 ^ length bs =
      grind arith in
    let plain : 0 * 256 + b ≡ b = omega arith in
    rw plain (
      omega (
        arith,
        spread,
        be_value_from-eq (v * 256 + b) bs,
        be_value_from-eq b bs,
        ap (λ (t : ℕ). v * t) (pow-suc 256 (length bs)),
      ))

pub be_value-cons : (b : ℕ) (bs : Bytes) → be_value (b ∷ bs) ≡ b * 256 ^ length bs + be_value bs
unfolding be_value be_value_from
be_value-cons b bs = let plain : 0 * 256 + b ≡ b = omega arith in rw plain (be_value_from-eq b bs)
