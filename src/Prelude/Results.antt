-- ===== src/Prelude/Results.antt =====
-- What a JavaScript call gives: a value, or the exception that it throws.
use Prim.Native.Nat.{ℕ}
use mathlib.Core.Path.{◌≡◌, refl}
use mathlib.Core.List.{List, [], ◌∷◌}
use mathlib.Core.Option.{Option, none, some}
use mathlib.Core.Logic.{◌⊎◌, inl, inr}

-- `range_error` and `type_error` are the runtime's exceptions; the others are `throw new Error(...)`
-- in the sources, or the errors of the program; `index_out_of_bounds` and `poseidon_syscall` are
-- panics of the program, and `constraint_raw` is that of an account constraint without one of its own.
pub data Error : Type 0 where
  range_error type_error : Error
  leaf_out_of_bounds : ℕ → Error
  wrong_note pool_capacity_exceeded index_out_of_bounds pool_frozen : Error
  invalid_amount_proof unsupported_mint insufficient_encrypted_balance : Error
  account_in_use protocol_paused constraint_seeds fee_overflow math_overflow : Error
  invalid_merkle_proof bad_key_size stealth_address_error registry_not_found account_not_found :
      Error
  constraint_raw poseidon_syscall : Error

pub data Result {ℓ} (A : Type ℓ) : Type ℓ where
  err : Error → Result A
  ok : A → Result A

-- A value that may be `undefined`, used where the runtime wants an object.
abbrev pub defined {ℓ} : {A : Type ℓ} → Option A → Result A
defined none = err type_error
defined (some a) = ok a

-- An exception passes over what follows it.
infixl 5 ◌>>=◌ ◌>>◌
abbrev pub ◌>>=◌ {ℓ κ} : {A : Type ℓ} {B : Type κ} (m : Result A) (next : A → Result B) → Result B
err thrown >>= next = err thrown
ok value >>= next = next value

abbrev pub ◌>>◌ {ℓ} : {B : Type ℓ} (check : Result (Unit {0})) (next : Result B) → Result B
check >> next = check >>= λ passed. next

-- `xs.map(f)` where `f` may throw.
abbrev pub map_result {ℓ κ} : {A : Type ℓ} {B : Type κ} → (A → Result B) → List A → Result (List B)
map_result f [] = ok []
map_result f (x ∷ xs) = do y ← f x; ys ← map_result f xs; ok (y ∷ ys)

-- `f` of the value, where there is one.
abbrev pub map_ok {ℓ κ} : {A : Type ℓ} {B : Type κ} → (A → B) → Result A → Result B
map_ok f (ok a) = ok (f a)
map_ok f (err e) = err e

-- A chain that ends in a value has had one at its start.
pub start_of_ok {ℓ κ} :
    {A : Type ℓ} {B : Type κ} {end : B} (start : Result A) (next : A → Result B)
    → (start >>= next) ≡ ok end
    → (middle : A) × (start ≡ ok middle)
start_of_ok (err thrown) next h = cc
start_of_ok (ok value) next h = (value, refl)

-- Its next step ends in the value too.
pub rest_of_ok {ℓ κ} :
    {A : Type ℓ} {B : Type κ} {end : B} (start : Result A) (next : A → Result B)
    → (start >>= next) ≡ ok end
    → (middle : A) × (start ≡ ok middle) × (next middle ≡ ok end)
rest_of_ok (ok value) next h = (value, refl, h)
rest_of_ok (err thrown) next h = cc

pub ok-injective {ℓ} : {A : Type ℓ} (a b : A) → Result.ok a ≡ ok b → a ≡ b
ok-injective a b h = cc

pub Result-cases {ℓ} :
    {A : Type ℓ} (r : Result A) → ((a : A) × (r ≡ ok a)) ⊎ ((e : Error) × (r ≡ err e))
Result-cases (ok a) = inl (a, refl)
Result-cases (err e) = inr (e, refl)
