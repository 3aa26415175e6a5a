-- ===== src/Events/Doubles.antt =====
-- Bounds that rounding to a double keeps.
use kirite.Prelude.{
  ℕ, zero, suc, ◌*◌, ◌/◌, ◌^◌, ◌≤◌, ◌<◌, ◌≡◌, refl, ap, ltb, Bool-cases, inl, inr, arith,
}
use kirite.Events.{round_half_even, round_to_53_bits}
use native.Mathlib.Nat.{pow-suc, le-div_iff_mul-le}

le-round_half_even : (n d : ℕ) → n / d ≤ round_half_even n d
unfolding round_half_even
le-round_half_even n d = ground arith

le-round_last : (c d n : ℕ) → 0 < d → c * d ≤ n → c * d ≤ round_half_even n d * d
le-round_last c d n some_place h =
    let whole : c ≤ round_half_even n d =
      omega (arith, (le-div_iff_mul-le some_place).1 h, le-round_half_even n d) in
    grind arith

-- A multiple of the greatest last place that the number reaches is reached by its double.
pub le-round_to_53_bits :
    (fuel c d q n : ℕ) → c ≡ q * 2 ^ fuel → 0 < d → c * d ≤ n → c * d ≤ round_to_53_bits fuel d n
unfolding round_to_53_bits
le-round_to_53_bits zero c d q n multiple some_place h = le-round_last c d n some_place h
le-round_to_53_bits (suc fuel) c d q n multiple some_place h =
    elim (Bool-cases (ltb n (2 ^ 53 * d))) [
      | inl last ↦ rw last (le-round_last c d n some_place h)
      | inr wider ↦
          let half : c ≡ 2 * (q * 2 ^ fuel) =
            omega (arith, ap (λ (t : ℕ). q * t) (pow-suc 2 fuel)) in
          let same : q * 2 ^ fuel * (2 * d) ≡ c * d = omega (arith, ap (λ (t : ℕ). t * d) half) in
          rw (wider, ← same)
            (le-round_to_53_bits fuel (q * 2 ^ fuel) (2 * d) q n refl (omega arith) (rw same h))
    ]
