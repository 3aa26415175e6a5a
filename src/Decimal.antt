-- ===== src/Decimal.antt =====
-- Numbers and their decimal texts, as `String(n)`, `parseInt(text, 10)` and BN's `toString()` have them.
use kirite.Prelude.{
  All, take, drop, le→leb, ltb→lt, ℕ, zero, suc, ◌+◌, ◌-◌, ◌*◌, ◌/◌, ◌%◌, ◌^◌, ◌<◌, ◌≡◌, refl, ap,
  ◌∙◌, Bool, true, false, ◌&&◌, ℤ, pos, negsuc, [], ◌∷◌, ◌++◌, Option, none, some, length,
  replicate, ltb, leb, Bool-cases, inl, inr, ◌==◌, if◌then◌else◌, arith,
}
use kirite.Ceremony.{skip_spaces}
use kirite.Events.{Line, round_to_53_bits}
use native.Mathlib.Nat.{pow-suc}

-- The digits of a number in front of those already written; the fuel is the rounds left.
decimal_onto : ℕ → ℕ → Line → Line
decimal_onto zero n acc = acc
decimal_onto (suc fuel) n acc =
    let rest = decimal_onto fuel (n / 10) ((48 + n % 10) ∷ acc) in
    if ltb n 10 then (48 + n) ∷ acc else rest

unfoldable pub decimal : ℕ → Line
unfolding decimal_onto
decimal n = decimal_onto (suc n) n []

-- `[0-9]`
abbrev pub is_digit : ℕ → Bool
is_digit c = leb 48 c && leb c 57

-- The number of the digits read so far and those that follow at the start of a text.
digits_from : ℕ → Line → ℕ
digits_from v [] = v
digits_from v (c ∷ cs) = elim (is_digit c) [ true ↦ digits_from (v * 10 + (c - 48)) cs | false ↦ v ]

-- What `parseInt` gives: a whole double, or one of the others.
pub data Number : Type 0 where
  nan infinity minus_infinity : Number
  integer : ℤ → Number

-- The double next to a number: those below `2 ^ 1024` have a last place of at most `2 ^ 971`, and
-- what would be rounded to that or more is Infinity.
double : ℕ → Option ℕ
double n =
    let rounded = round_to_53_bits 971 1 n in if ltb rounded (2 ^ 1024) then some rounded else none

-- `parseInt` behind the sign: the number that the digits spell, where there is a digit.
parse_digits : Line → Option ℕ
unfolding digits_from
parse_digits [] = none
parse_digits (c ∷ cs) = if is_digit c then some (digits_from 0 (c ∷ cs)) else none

negative : Option ℕ → Number
negative none = minus_infinity
negative (some zero) = integer (pos 0)
negative (some (suc n)) = integer (negsuc n)

positive : Option ℕ → Number
positive none = infinity
positive (some n) = integer (pos n)

signed : (Option ℕ → Number) → Option ℕ → Number
unfolding double
signed sign none = nan
signed sign (some n) = sign (double n)

parse_sign : Line → Number
unfolding parse_digits signed negative positive
parse_sign [] = nan
parse_sign (c ∷ cs) =
    if c == 45
    then signed negative (parse_digits cs)
    else if c == 43
    then signed positive (parse_digits cs)
    else signed positive (parse_digits (c ∷ cs))

-- `parseInt(text, 10)`, which stops at the first character that is no digit.
unfoldable pub parse_int : Line → Number
unfolding parse_sign
parse_int text = parse_sign (skip_spaces text)

-- The number that digits spell.
abbrev pub decimal_value_from : ℕ → Line → ℕ
decimal_value_from v [] = v
decimal_value_from v (c ∷ cs) = decimal_value_from (v * 10 + (c - 48)) cs

abbrev pub decimal_value : Line → ℕ
decimal_value text = decimal_value_from 0 text

-- A text of digits alone.
abbrev pub IsDigits : Line → Type 0
IsDigits text = All (λ c. is_digit c ≡ true) text

pub IsDigits-append : (a b : Line) → IsDigits a → IsDigits b → IsDigits (a ++ b)
IsDigits-append [] b ha hb = hb
IsDigits-append (c ∷ a) b (here, ha) hb = (here, IsDigits-append a b ha hb)

pub IsDigits-zeros : (n : ℕ) → IsDigits (replicate n 48)
IsDigits-zeros zero = tt
IsDigits-zeros (suc n) = (refl, IsDigits-zeros n)

pub IsDigits-take : (n : ℕ) (text : Line) → IsDigits text → IsDigits (take n text)
IsDigits-take zero text h = tt
IsDigits-take (suc n) [] h = tt
IsDigits-take (suc n) (c ∷ text) (here, h) = (here, IsDigits-take n text h)

pub IsDigits-drop : (n : ℕ) (text : Line) → IsDigits text → IsDigits (drop n text)
IsDigits-drop zero text h = h
IsDigits-drop (suc n) [] h = tt
IsDigits-drop (suc n) (c ∷ text) (here, h) = IsDigits-drop n text h

digit_of : (d : ℕ) → d < 10 → is_digit (48 + d) ≡ true
digit_of d small =
    let low : leb 48 (48 + d) ≡ true = le→leb 48 (48 + d) (omega arith) in
    let high : leb (48 + d) 57 ≡ true = le→leb (48 + d) 57 (omega arith) in rw (low, high) refl

IsDigits-decimal_onto :
    (fuel n : ℕ) (acc : Line) → IsDigits acc → IsDigits (decimal_onto fuel n acc)
unfolding decimal_onto
IsDigits-decimal_onto zero n acc h = h
IsDigits-decimal_onto (suc fuel) n acc h = elim (Bool-cases (ltb n 10)) [
  | inl last ↦ rw last (digit_of n (ltb→lt n 10 last), h)
  | inr more ↦ rw more (
      IsDigits-decimal_onto fuel (n / 10) ((48 + n % 10) ∷ acc)
        (digit_of (n % 10) (omega arith), h))
]

pub IsDigits-decimal : (n : ℕ) → IsDigits (decimal n)
unfolding decimal
IsDigits-decimal n = IsDigits-decimal_onto (suc n) n [] tt

decimal_value_from-decimal_onto :
    (fuel n : ℕ) (acc : Line)
    → n < fuel
    → decimal_value (decimal_onto fuel n acc) ≡ decimal_value_from n acc
unfolding decimal_onto
decimal_value_from-decimal_onto zero n acc h = absurd (omega arith)
decimal_value_from-decimal_onto (suc fuel) n acc h = elim (Bool-cases (ltb n 10)) [
  | inl last ↦ rw last (ap (λ (t : ℕ). decimal_value_from t acc) (omega arith))
  | inr more ↦
      let smaller : n / 10 < fuel = ground arith in
      let whole : n / 10 * 10 + (48 + n % 10 - 48) ≡ n = omega arith in
      rw more (
        decimal_value_from-decimal_onto fuel (n / 10) ((48 + n % 10) ∷ acc) smaller
        ∙ ap (λ (t : ℕ). decimal_value_from t acc) whole)
]

-- The text of a number spells it.
pub decimal_value-decimal : (n : ℕ) → decimal_value (decimal n) ≡ n
unfolding decimal
decimal_value-decimal n = decimal_value_from-decimal_onto (suc n) n [] (omega arith)

length-decimal_onto :
    (fuel n : ℕ) (acc : Line) → n < fuel → length acc < length (decimal_onto fuel n acc)
unfolding decimal_onto
length-decimal_onto zero n acc h = absurd (omega arith)
length-decimal_onto (suc fuel) n acc h = elim (Bool-cases (ltb n 10)) [
  | inl last ↦ rw last (omega arith)
  | inr more ↦
      let smaller : n / 10 < fuel = ground arith in
      rw more (omega (arith, length-decimal_onto fuel (n / 10) ((48 + n % 10) ∷ acc) smaller))
]

pub length-decimal : (n : ℕ) → 0 < length (decimal n)
unfolding decimal
length-decimal n = omega (arith, length-decimal_onto (suc n) n [] (omega arith))

decimal_value_from-eq :
    (v : ℕ) (text : Line) → decimal_value_from v text ≡ v * 10 ^ length text + decimal_value text
decimal_value_from-eq v [] = omega arith
decimal_value_from-eq v (c ∷ cs) = omega (
  arith,
  decimal_value_from-eq (v * 10 + (c - 48)) cs,
  decimal_value_from-eq (0 * 10 + (c - 48)) cs,
  ap (λ (t : ℕ). v * t) (pow-suc 10 (length cs)),
)

decimal_value_from-append :
    (v : ℕ) (a b : Line)
    → decimal_value_from v (a ++ b) ≡ decimal_value_from (decimal_value_from v a) b
decimal_value_from-append v [] b = refl
decimal_value_from-append v (c ∷ a) b = decimal_value_from-append (v * 10 + (c - 48)) a b

pub decimal_value-append :
    (a b : Line) → decimal_value (a ++ b) ≡ decimal_value a * 10 ^ length b + decimal_value b
decimal_value-append a b =
    decimal_value_from-append 0 a b ∙ decimal_value_from-eq (decimal_value a) b

pub decimal_value-zeros : (n : ℕ) (b : Line) → decimal_value (replicate n 48 ++ b) ≡ decimal_value b
decimal_value-zeros zero b = refl
decimal_value-zeros (suc n) b = decimal_value-zeros n b
