-- ===== src/Tests/Verifier.antt =====
-- The checks of the verifier and the ring of roots at concrete bytes.
use kirite.Prelude.{
  ◌-◌, ◌≤◌, ◌≡◌, ◌↔◌, refl, true, [], ◌∷◌, ◌++◌, ok, length, take, drop, replicate, arith,
}
use kirite.Bytes.{Bytes, be_value, be_value_from}
use kirite.Field.{bn254_p}
use kirite.Verifier.{negate_g1_y}
use kirite.Verifier.Negation.{negate_g1_y-value}
use kirite.Roots.{Roots, push_roots, is_known_root}
use kirite.Roots.Window.{WellFormed, IsOneOf, push_roots-known}
use kirite.Tests.Data.{small_bytes}

abbrev point : Bytes
point = small_bytes 1 ++ small_bytes 2

point-small : be_value (drop 32 point) ≤ bn254_p
unfolding be_value be_value_from
point-small = omega arith

negate_g1_y-value_example :
    (length (negate_g1_y point) ≡ 64)
    × (take 32 (negate_g1_y point) ≡ small_bytes 1)
    × (be_value (drop 32 (negate_g1_y point)) ≡ bn254_p - be_value (small_bytes 2))
negate_g1_y-value_example = negate_g1_y-value point (ground arith) refl point-small

abbrev new_ring : Roots
new_ring = record {
  current_root = small_bytes 0;
  historical_roots = replicate 3 (replicate 32 0);
  root_history_index = 0;
}

push_roots-known_example :
    (r' : Roots) × (push_roots new_ring (small_bytes 5 ∷ small_bytes 6 ∷ small_bytes 7 ∷ [])
      ≡ ok r')
    × WellFormed r'
    × ((is_known_root r' (small_bytes 6) ≡ true)
        ↔ IsOneOf (small_bytes 5) (small_bytes 6) (small_bytes 7) (small_bytes 6))
push_roots-known_example =
    push_roots-known new_ring (small_bytes 5) (small_bytes 6) (small_bytes 7) (small_bytes 6)
      (record { three = refl; index = omega arith })
