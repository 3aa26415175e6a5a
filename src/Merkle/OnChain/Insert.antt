-- ===== src/Merkle/OnChain/Insert.antt =====
-- Inserting a leaf keeps the stored nodes right, and gives the root of the tree with that leaf.
use kirite.Prelude.{
  ℕ, zero, suc, ◌+◌, ◌-◌, ◌*◌, ◌/◌, ◌%◌, ◌≤◌, ◌<◌, ◌≡◌, true, false, refl, ap, ◌∙◌, ◌⊎◌, inl, inr,
  List, [], ◌∷◌, arith, length, ◌==◌, bit_and, bit_and-one,
}
use kirite.Merkle.Tree.{ancestor, lt-first_leaf-ancestor, node, empty_root, node-agree, node-empty}
use kirite.Merkle.OnChain.Total.{up, zero_node, grow_levels}

pub is_left-cases :
    (n : ℕ) → ((bit_and n 1 == 0) ≡ true) × (n % 2 ≡ 0) ⊎ ((bit_and n 1 == 0) ≡ false) × (n % 2 ≡ 1)
is_left-cases n = ground (arith, bit_and-one n)

module _ {ℓ} {A : Type ℓ} (pair : A → A → A) (z : A) where
  up-pair : (k : ℕ) (h : A) → up pair z k (pair h h) ≡ pair (up pair z k h) (up pair z k h)
  unfolding up
  up-pair zero h = refl
  up-pair (suc k) h = up-pair k (pair h h)

  pub zero_node-eq : (k : ℕ) → zero_node pair z k ≡ empty_root pair z k
  unfolding zero_node empty_root
  zero_node-eq zero = refl
  zero_node-eq (suc k) = up-pair k z ∙ ap (λ t. pair t t) (zero_node-eq k)

  pub length-grow_levels :
      (i : ℕ) (fs : List A) (current : A) (m : ℕ)
      → length (grow_levels pair z i fs current m).0 ≡ length fs
  unfolding grow_levels
  length-grow_levels i [] current m = refl
  length-grow_levels i (f ∷ fs) current m = ap suc (length-grow_levels (suc i) fs _ (m / 2))

  -- Where index `m` is a right child, the level stores its left neighbour.
  abbrev pub Filled : (ℕ → A) → ℕ → List A → ℕ → Type ℓ
  Filled leaf i [] m = Unit
  Filled leaf i (f ∷ fs) m =
      (m % 2 ≡ 1 → f ≡ node pair leaf i (m - 1)) × Filled leaf (suc i) fs (m / 2)

  Filled-agree :
      (f g : ℕ → A) (n : ℕ)
      → ((i : ℕ) → i < n → f i ≡ g i)
      → (i : ℕ) (fs : List A) → Filled f i fs (ancestor i n)
      → Filled g i fs (ancestor i n)
  unfolding ancestor
  Filled-agree f g n same i [] h = tt
  Filled-agree f g n same i (x ∷ fs) (here, above) = (
    λ odd. here odd ∙ node-agree pair f g n same i (ancestor i n - 1) (omega arith),
    Filled-agree f g n same (suc i) fs above,
  )

  -- A level is written only where the index is even, so it stays right for that index.
  Filled-grow_levels :
      (leaf : ℕ → A) (i : ℕ) (fs : List A) (current : A) (m : ℕ)
      → Filled leaf i fs m
      → Filled leaf i (grow_levels pair z i fs current m).0 m
  unfolding grow_levels
  Filled-grow_levels leaf i [] current m h = tt
  Filled-grow_levels leaf i (f ∷ fs) current m (here, above) = elim (is_left-cases m) [
    | inl (left, even) ↦
        (λ odd. absurd (omega arith), Filled-grow_levels leaf (suc i) fs _ (m / 2) above)
    | inr (right, odd) ↦ (rw right here, Filled-grow_levels leaf (suc i) fs _ (m / 2) above)
  ]

  module _ (f g : ℕ → A) (n : ℕ) (same : (i : ℕ) → i < n → f i ≡ g i)
      (blank : (i : ℕ) → suc n ≤ i → g i ≡ z) where
    -- The hash that the loop makes at level `i` is the node above.
    node-above_left :
        (i : ℕ)
        → ancestor i n % 2 ≡ 0
        → pair (node pair g i (ancestor i n)) (zero_node pair z i)
          ≡ node pair g (suc i) (ancestor i n / 2)
    unfolding node
    node-above_left i even =
        let left : 2 * (ancestor i n / 2) ≡ ancestor i n = omega arith in
        let right =
          node-empty pair g z (suc n) blank i (ancestor i n + 1) (lt-first_leaf-ancestor i n) in
        rw (left, zero_node-eq, right)

    node-above_right :
        (i : ℕ) (stored : A)
        → ancestor i n % 2 ≡ 1
        → stored ≡ node pair f i (ancestor i n - 1)
        → pair stored (node pair g i (ancestor i n)) ≡ node pair g (suc i) (ancestor i n / 2)
    unfolding node
    node-above_right i stored odd here =
        let left : 2 * (ancestor i n / 2) ≡ ancestor i n - 1 = omega arith in
        let right : 2 * (ancestor i n / 2) + 1 ≡ ancestor i n = omega arith in
        rw (right, left, here, node-agree pair f g n same i (ancestor i n - 1) (omega arith))

    -- The loop ends with the root of the tree that has the new leaf.
    pub root-grow_levels :
        (i h : ℕ) (fs : List A) (current : A)
        → i + length fs ≡ h
        → Filled f i fs (ancestor i n)
        → current ≡ node pair g i (ancestor i n)
        → (grow_levels pair z i fs current (ancestor i n)).1 ≡ node pair g h (ancestor h n)
    unfolding grow_levels ancestor
    root-grow_levels i h [] current height filled is_node =
        let top : i ≡ h = omega arith in rw (← top) is_node
    root-grow_levels i h (x ∷ fs) current height (here, above) is_node =
        elim (is_left-cases (ancestor i n)) [
          | inl (left, even) ↦ rw left (
              root-grow_levels (suc i) h fs _ (omega arith) above
                (ap (λ t. pair t (zero_node pair z i)) is_node ∙ node-above_left i even))
          | inr (right, odd) ↦ rw right (
              root-grow_levels (suc i) h fs _ (omega arith) above
                (ap (pair x) is_node ∙ node-above_right i x odd (here odd)))
        ]

    pub Filled-insert :
        (i : ℕ) (fs : List A) (current : A)
        → Filled f i fs (ancestor i n)
        → current ≡ node pair g i (ancestor i n)
        → Filled g i (grow_levels pair z i fs current (ancestor i n)).0 (ancestor i n + 1)
    unfolding grow_levels ancestor
    Filled-insert i [] current filled is_node = tt
    Filled-insert i (x ∷ fs) current (here, above) is_node = elim (is_left-cases (ancestor i n)) [
      | inl (left, even) ↦
          let same_index : ancestor i n + 1 - 1 ≡ ancestor i n = omega arith in
          let parent : (ancestor i n + 1) / 2 ≡ ancestor i n / 2 = omega arith in
          (
            λ odd. rw (left, same_index) is_node,
            rw parent (
                Filled-agree f g n same (suc i) _
                  (Filled-grow_levels f (suc i) fs _ (ancestor (suc i) n) above)),
          )
      | inr (right, odd) ↦
          let parent : (ancestor i n + 1) / 2 ≡ ancestor i n / 2 + 1 = omega arith in
          (
            λ odd'. absurd (omega arith),
            rw (parent, right)
                (Filled-insert (suc i) fs _ above
                  (ap (pair x) is_node ∙ node-above_right i x odd (here odd))),
          )
    ]
