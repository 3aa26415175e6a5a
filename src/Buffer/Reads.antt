-- ===== src/Buffer/Reads.antt =====
-- What each reader gives where the buffer holds the encoding of a value, and how readers chain.
use kirite.Prelude.{
  leb, leb→le, Bool-cases, Result-cases, inl, inr, ok-injective, ℕ, ◌+◌, ◌-◌, ◌*◌, ◌/◌, ◌%◌, ◌^◌,
  ◌≤◌, ◌<◌, ◌≡◌, sym, ap, ◌∙◌, Bool, true, false, [], ◌++◌, append_assoc, append-nil, ℤ, pos,
  negsuc, ok, length, length-append, length-drop, drop-add, take, drop, take-append,
  take-append_of_length, le→leb, drop-append, drop-append_of_length, if◌then◌else◌,
  bit_or-shift_right, arith,
}
use kirite.Bytes.{
  Bytes, le_bytes, le_value, length-le_bytes, le_value-le_bytes, le_bytes-sixteen,
  le_value-le_bytes_eight,
}
use native.Mathlib.Nat.{add-zero}
use kirite.Web3.{Web3}
use kirite.Buffer.{
  Reader, ◌>>=◌, pure, read_slice, uint_le_at, read_uint_le, signed64, read_i64, read_u128,
  read_bool, read_key, decode_from_8,
}

-- Where the buffer goes on with `enc`, the reader gives `v` and moves behind it.
pub record Reads {A : Type 0} (r : Reader A) (enc : Bytes) (v : A) : Type 0 where
  pub run :
      (buf : Bytes) (o : ℕ) (rest : Bytes)
      → drop o buf ≡ enc ++ rest
      → r buf o ≡ ok (v, o + length enc)

pub drop-behind :
    (buf : Bytes) (o : ℕ) (enc rest : Bytes)
    → drop o buf ≡ enc ++ rest
    → drop (o + length enc) buf ≡ rest
drop-behind buf o enc rest h =
    drop-add o (length enc) buf ∙ ap (drop (length enc)) h ∙ drop-append enc rest

pub Reads-pure : {A : Type 0} (v : A) → Reads (pure v) [] v
unfolding pure
Reads-pure v = record { run = λ buf o rest h. ap (λ t. ok (v, t)) (sym (add-zero o)) }

pub Reads-bind :
    {A B : Type 0} {r : Reader A} (f : A → Reader B) {enc enc' : Bytes} {v : A} {w : B}
    → Reads r enc v
    → Reads (f v) enc' w
    → Reads (r >>= f) (enc ++ enc') w
unfolding ◌>>=◌
Reads-bind {r} f {enc} {enc'} {v} {w} first second = record {
  run = λ buf o rest h.
      let here = h ∙ append_assoc enc enc' rest in
      let offset : o + length enc + length enc' ≡ o + length (enc ++ enc') =
        omega (arith, length-append enc enc') in
      rw (first.run buf o (enc' ++ rest) here, ◌>>=◌, ← offset)
        (second.run buf (o + length enc) rest (drop-behind buf o enc (enc' ++ rest) here));
}

pub Reads-slice : (bs : Bytes) (n : ℕ) → length bs ≡ n → Reads (read_slice n) bs bs
unfolding read_slice
Reads-slice bs n len = record { run = λ buf o rest h. rw (h, ← len, take-append bs rest) }

uint_le_at-eq :
    (k n : ℕ) (buf : Bytes) (o : ℕ) (rest : Bytes)
    → 0 < k
    → drop o buf ≡ le_bytes k n ++ rest
    → uint_le_at k buf o ≡ ok (le_value (le_bytes k n))
unfolding uint_le_at
uint_le_at-eq k n buf o rest some_bytes h =
    let size : length (le_bytes k n ++ rest) ≡ k + length rest =
      omega (arith, length-append (le_bytes k n) rest, length-le_bytes k n) in
    let fits : o + k ≤ length buf = omega (arith, length-drop o buf, ap length h, size) in
    let slice : take k (le_bytes k n ++ rest) ≡ le_bytes k n =
      take-append_of_length k (le_bytes k n) rest (length-le_bytes k n) in
    rw (le→leb (o + k) (length buf) fits, h, slice)

pub Reads-uint_le : (k n : ℕ) → 0 < k → n < 256 ^ k → Reads (read_uint_le k) (le_bytes k n) n
unfolding read_uint_le
Reads-uint_le k n some_bytes small = record {
  run = λ buf o rest h. rw (
    uint_le_at-eq k n buf o rest some_bytes h,
    read_uint_le,
    le_value-le_bytes k n small,
    length-le_bytes k n,
  );
}

pub Reads-u128 : (n : ℕ) → n < 2 ^ 128 → Reads read_u128 (le_bytes 16 n) n
unfolding read_u128
Reads-u128 n small = record {
  run = λ buf o rest h.
      let here = h ∙ ap (λ t. t ++ rest) (le_bytes-sixteen n) ∙ append_assoc _ _ rest in
      let behind : drop (o + 8) buf ≡ le_bytes 8 (n / 2 ^ 64) ++ rest =
        rw length-le_bytes at
          (drop-behind buf o (le_bytes 8 n) (le_bytes 8 (n / 2 ^ 64) ++ rest) here) in
      let value : n / 2 ^ 64 * 2 ^ 64 + n % 2 ^ 64 ≡ n = omega arith in
      let high : n / 2 ^ 64 % 2 ^ 64 ≡ n / 2 ^ 64 = omega arith in
      rw (
        uint_le_at-eq 8 n buf o (le_bytes 8 (n / 2 ^ 64) ++ rest) (omega arith) here,
        uint_le_at-eq 8 (n / 2 ^ 64) buf (o + 8) rest (omega arith) behind,
        read_u128,
        le_value-le_bytes_eight,
        le_value-le_bytes_eight,
        high,
        bit_or-shift_right 64 (n / 2 ^ 64) (n % 2 ^ 64) (omega arith),
        value,
        length-le_bytes,
      );
}

-- The 8 bytes of a signed number, and the numbers that have such.
unfoldable pub i64_bytes : ℤ → Bytes
i64_bytes (pos n) = le_bytes 8 n
i64_bytes (negsuc n) = le_bytes 8 (2 ^ 64 - (n + 1))

abbrev pub IsI64 : ℤ → Type 0
IsI64 (pos n) = n < 2 ^ 63
IsI64 (negsuc n) = n < 2 ^ 63

signed64-word : (w : ℕ) (z : ℤ) → signed64 w ≡ z → w < 2 ^ 64 → Reads read_i64 (le_bytes 8 w) z
unfolding read_i64
signed64-word w z same small = record {
  run = λ buf o rest h.
      rw ((Reads-uint_le 8 w (omega arith) small).run buf o rest h, ◌>>=◌, pure, same);
}

pub Reads-i64 : (z : ℤ) → IsI64 z → Reads read_i64 (i64_bytes z) z
unfolding i64_bytes signed64
Reads-i64 (pos n) small = signed64-word n (pos n) (ground arith) (omega arith)
Reads-i64 (negsuc n) small =
    signed64-word (2 ^ 64 - (n + 1)) (negsuc n) (ground arith) (omega arith)

unfoldable pub bool_bytes : Bool → Bytes
bool_bytes b = le_bytes 1 (if b then 1 else 0)

pub Reads-bool : (b : Bool) → Reads read_bool (bool_bytes b) b
unfolding bool_bytes read_bool
Reads-bool true = record {
  run = λ buf o rest h.
      rw ((Reads-uint_le 1 1 (omega arith) (omega arith)).run buf o rest h, ◌>>=◌, pure);
}
Reads-bool false = record {
  run = λ buf o rest h.
      rw ((Reads-uint_le 1 0 (omega arith) (omega arith)).run buf o rest h, ◌>>=◌, pure);
}

pub Reads-key : (w : Web3) (k : w.PublicKey) → Reads (read_key w) (w.to_bytes k) k
unfolding read_key
Reads-key w k = record {
  run = λ buf o rest h. rw (
    (Reads-slice (w.to_bytes k) 32 (w.length-to_bytes k)).run buf o rest h,
    ◌>>=◌,
    w.of_bytes-to_bytes k,
  );
}

-- A decoder behind an 8-byte discriminator.
pub decode_from_8-eq :
    {A : Type 0} {r : Reader A} {enc : Bytes} {v : A} (disc : Bytes)
    → length disc ≡ 8
    → Reads r enc v
    → decode_from_8 r (disc ++ enc) ≡ ok v
unfolding decode_from_8
decode_from_8-eq {r} {enc} {v} disc len reads = rw (
  reads.run (disc ++ enc) 8 [] (drop-append_of_length 8 disc enc len ∙ sym (append-nil enc)),
  decode_from_8,
)

-- What follows the encoding does not matter.
pub decode_from_8-append :
    {A : Type 0} {r : Reader A} {enc : Bytes} {v : A} (disc rest : Bytes)
    → length disc ≡ 8
    → Reads r enc v
    → decode_from_8 r (disc ++ (enc ++ rest)) ≡ ok v
unfolding decode_from_8
decode_from_8-append {r} {enc} {v} disc rest len reads = rw (
  reads.run (disc ++ (enc ++ rest)) 8 rest (drop-append_of_length 8 disc (enc ++ rest) len),
  decode_from_8,
)

-- A chain of readers that gives a value has had one at its start.
pub Reader-bind-inv :
    {A B : Type 0} (r : Reader A) (f : A → Reader B) (buf : Bytes) (o : ℕ) {b : B} {end : ℕ}
    → (r >>= f) buf o ≡ ok (b, end)
    → (a : A) × (next : ℕ) × (r buf o ≡ ok (a, next)) × (f a buf next ≡ ok (b, end))
unfolding ◌>>=◌
Reader-bind-inv r f buf o h = elim (Result-cases (r buf o)) [
  | inl ((a, next), read) ↦ (a, next, read, rw (read, ◌>>=◌) at h)
  | inr (e, fails) ↦ cc (rw (fails, ◌>>=◌) at h)
]

pub decode_from_8-inv :
    {A : Type 0} (r : Reader A) (buf : Bytes) {a : A}
    → decode_from_8 r buf ≡ ok a
    → (end : ℕ) × (r buf 8 ≡ ok (a, end))
unfolding decode_from_8
decode_from_8-inv r buf h = elim (Result-cases (r buf 8)) [
  | inl ((a, end), read) ↦
      (end, read ∙ ap (λ t. ok (t, end)) (ok-injective _ _ (rw (read, decode_from_8) at h)))
  | inr (e, fails) ↦ cc (rw (fails, decode_from_8) at h)
]

pub read_uint_le-inside :
    (k : ℕ) (buf : Bytes) (o : ℕ) {v : ℕ} {end : ℕ}
    → read_uint_le k buf o ≡ ok (v, end)
    → o + k ≤ length buf
unfolding read_uint_le uint_le_at
read_uint_le-inside k buf o h = elim (Bool-cases (leb (o + k) (length buf))) [
  | inl inside ↦ leb→le _ _ inside
  | inr beyond ↦ cc (rw (beyond, read_uint_le) at h)
]
