-- ===== src/Roots/Window.antt =====
-- Which roots are known: the last three.
use kirite.Prelude.{
  ap, ok-injective, ◌∙◌, ◌+◌, ◌%◌, ℕ, zero, suc, ◌<◌, ◌≡◌, ◌↔◌, ◌⊎◌, inl, inr, refl, sym, Bool,
  true, false, ◌||◌, List, [], ◌∷◌, ok, length, Result-cases, bytes_eq, bytes_eq_refl,
  eq_of_bytes_eq, Bool-cases, arith,
}
use kirite.Bytes.{Bytes}
use kirite.Roots.{
  max_historical_roots, Roots, set_at, push_root, push_roots, any_root, is_known_root,
}

-- Three places, and an index into them.
pub record WellFormed (r : Roots) : Type 0 where
  pub three : length r.historical_roots ≡ 3
  pub index : r.root_history_index < 3

or-true : (a : Bool) → (a || true) ≡ true
or-true true = refl
or-true false = refl

abbrev ring : Bytes → Bytes → Bytes → Bytes → ℕ → Roots
ring current u v w i = record {
  current_root = current;
  historical_roots = u ∷ v ∷ w ∷ [];
  root_history_index = i;
}

-- The root is one of three.
abbrev pub IsOneOf : Bytes → Bytes → Bytes → Bytes → Type 0
IsOneOf a b c x = (x ≡ a) ⊎ ((x ≡ b) ⊎ (x ≡ c))

known-IsOneOf :
    (t u v w x : Bytes) (i : ℕ)
    → is_known_root (ring t u v w i) x ≡ true
    → (x ≡ t) ⊎ IsOneOf u v w x
unfolding is_known_root any_root
known-IsOneOf t u v w x i h = elim (Bool-cases (bytes_eq t x)) [
  | inl same ↦ inl (sym (eq_of_bytes_eq t x same))
  | inr current ↦ elim (Bool-cases (bytes_eq u x)) [
    | inl same ↦ inr (inl (sym (eq_of_bytes_eq u x same)))
    | inr first ↦ elim (Bool-cases (bytes_eq v x)) [
      | inl same ↦ inr (inr (inl (sym (eq_of_bytes_eq v x same))))
      | inr second ↦ elim (Bool-cases (bytes_eq w x)) [
        | inl same ↦ inr (inr (inr (sym (eq_of_bytes_eq w x same))))
        | inr third ↦ absurd (cc (rw (current, first, second, third) at h))
      ]
    ]
  ]
]

IsOneOf-known :
    (t u v w x : Bytes) (i : ℕ) → IsOneOf u v w x → is_known_root (ring t u v w i) x ≡ true
unfolding is_known_root any_root
IsOneOf-known t u v w x i (inl same) = simp (same, bytes_eq_refl, or-true)
IsOneOf-known t u v w x i (inr (inl same)) = simp (same, bytes_eq_refl, or-true)
IsOneOf-known t u v w x i (inr (inr same)) = simp (same, bytes_eq_refl, or-true)

-- The ring holds `a`, `b` and `c` in any turn of it, the last of them is the current root.
last_three :
    (r : Roots) (a b c x : Bytes) (hs : List Bytes) (i : ℕ)
    → r.historical_roots ≡ hs
    → r.root_history_index ≡ i
    → length hs ≡ 3
    → i < 3
    → (r' : Roots) × (push_roots r (a ∷ b ∷ c ∷ []) ≡ ok r')
      × WellFormed r'
      × ((is_known_root r' x ≡ true) ↔ IsOneOf a b c x)
unfolding push_roots push_root set_at
last_three r a b c x (u ∷ v ∷ w ∷ []) zero same at len small = (
  ring c a b c 0,
  rw (same, at) refl,
  record { three = refl; index = omega arith },
  (
    λ h. elim (known-IsOneOf c a b c x 0 h) [ inl e ↦ inr (inr e) | inr e ↦ e ],
    λ h. IsOneOf-known c a b c x 0 h,
  ),
)
last_three r a b c x (u ∷ v ∷ w ∷ []) (suc zero) same at len small = (
  ring c c a b 1,
  rw (same, at) refl,
  record { three = refl; index = omega arith },
  (
    λ h. elim (known-IsOneOf c c a b x 1 h) [
      | inl e ↦ inr (inr e)
      | inr (inl e) ↦ inr (inr e)
      | inr (inr (inl e)) ↦ inl e
      | inr (inr (inr e)) ↦ inr (inl e)
    ],
    λ h.
        IsOneOf-known c c a b x 1
          (elim h [ inl e ↦ inr (inl e) | inr (inl e) ↦ inr (inr e) | inr (inr e) ↦ inl e ]),
  ),
)
last_three r a b c x (u ∷ v ∷ w ∷ []) (suc (suc zero)) same at len small = (
  ring c b c a 2,
  rw (same, at) refl,
  record { three = refl; index = omega arith },
  (
    λ h. elim (known-IsOneOf c b c a x 2 h) [
      | inl e ↦ inr (inr e)
      | inr (inl e) ↦ inr (inl e)
      | inr (inr (inl e)) ↦ inr (inr e)
      | inr (inr (inr e)) ↦ inl e
    ],
    λ h.
        IsOneOf-known c b c a x 2
          (elim h [ inl e ↦ inr (inr e) | inr (inl e) ↦ inl e | inr (inr e) ↦ inr (inl e) ]),
  ),
)
last_three r a b c x hs (suc (suc (suc i))) same at len small = absurd (omega arith)
last_three r a b c x [] i same at len small = absurd (omega arith)
last_three r a b c x (u ∷ []) i same at len small = absurd (omega arith)
last_three r a b c x (u ∷ v ∷ []) i same at len small = absurd (omega arith)
last_three r a b c x (u ∷ v ∷ w ∷ y ∷ hs) i same at len small = absurd (omega arith)

-- From any state with three places and an index into them, three pushes succeed and lead to such a
-- state, in which a root is known exactly where it is one of the three.
pub push_roots-known :
    (r : Roots) (a b c x : Bytes)
    → WellFormed r
    → (r' : Roots) × (push_roots r (a ∷ b ∷ c ∷ []) ≡ ok r')
      × WellFormed r'
      × ((is_known_root r' x ≡ true) ↔ IsOneOf a b c x)
push_roots-known r a b c x good =
    last_three r a b c x r.historical_roots r.root_history_index refl refl good.three good.index

-- A push makes its root the current one.
pub push_root-current :
    (r : Roots) (root : Bytes) {r' : Roots} → push_root r root ≡ ok r' → r'.current_root ≡ root
unfolding push_root
push_root-current r root h =
    elim (Result-cases (set_at r.historical_roots r.root_history_index root)) [
      | inr (e, fails) ↦ cc (rw (push_root, fails) at h)
      | inl (hs, stored) ↦
          sym (ap (λ (t : Roots). t.current_root) (ok-injective _ _ (rw (push_root, stored) at h)))
    ]

set_at-ok :
    (xs : List Bytes) (i : ℕ) (x : Bytes)
    → i < length xs
    → (ys : List Bytes) × (set_at xs i x ≡ ok ys) × (length ys ≡ length xs)
unfolding set_at
set_at-ok [] i x h = absurd (omega arith)
set_at-ok (y ∷ ys) zero x h = (x ∷ ys, refl, refl)
set_at-ok (y ∷ ys) (suc i) x h =
    let (rest, stored, same) = set_at-ok ys i x (omega (arith, h)) in
    (y ∷ rest, rw (stored) refl, rw (same) refl)

-- A push into a well-formed ring succeeds and leaves a well-formed ring.
pub push_root-WellFormed :
    (r : Roots) (root : Bytes)
    → WellFormed r
    → (r' : Roots) × (push_root r root ≡ ok r') × WellFormed r'
unfolding push_root
push_root-WellFormed r root good =
    let (stored, done, same) =
      set_at-ok r.historical_roots r.root_history_index root (rw (good.three) good.index) in
    (
      record {
        current_root = root;
        historical_roots = stored;
        root_history_index = (r.root_history_index + 1) % max_historical_roots;
      },
      rw (done) refl,
      record { three = same ∙ good.three; index = omega arith },
    )
