-- ===== src/Poseidon/Toy.antt =====
-- A concrete hash with the laws of the parameter, on which the definitions can be run.
use kirite.Prelude.{ℕ, ◌+◌, ◌*◌, ◌%◌, ◌<◌, ◌≡◌, List, [], ◌∷◌, arith}
use kirite.Poseidon.{Poseidon, bn254_field_modulus}
use native.Mathlib.Nat.{mod-eq_of_lt}
use native.Mathlib.Bridge.{le_prop}
use mathlib.Core.HLevel.{Σ_prop_path}

abbrev pub Residue : Type 0
Residue = (n : ℕ) × (n < bn254_field_modulus)

abbrev pub residue : ℕ → Residue
residue n = (n % bn254_field_modulus, omega arith)

abbrev pub toy_sum : ℕ → List Residue → ℕ
toy_sum acc [] = acc
toy_sum acc (x ∷ xs) = toy_sum ((acc * 31 + x.0 + 7) % bn254_field_modulus) xs

pub residue-value : (x : Residue) → residue x.0 ≡ x
residue-value x = Σ_prop_path (λ n. le_prop) (mod-eq_of_lt x.1)

abbrev pub toy : Poseidon
toy = record {
  Fe = Residue;
  e = residue;
  to_object = λ x. x.0;
  hash = λ xs. residue (toy_sum 1 xs);
  e-to_object = residue-value;
  to_object-lt = λ x. x.1;
}
