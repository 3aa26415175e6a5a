-- ===== src/Merkle/Tree.antt =====
-- What a binary hash tree is: the node of index `i` at depth `d` above the leaves. Both the tree
-- that the prover rebuilds and the one that the program grows are compared to it.
use kirite.Prelude.{ℕ, zero, suc, ◌+◌, ◌*◌, ◌/◌, ◌^◌, ◌≤◌, ◌<◌, ◌≡◌, refl, ap, arith}
use native.Mathlib.Nat.{two-pow-succ}

-- Index `n` seen from depth `d`: the node above it.
unfoldable pub ancestor : ℕ → ℕ → ℕ
ancestor zero n = n
ancestor (suc d) n = ancestor d n / 2

-- The first leaf below node `i` of depth `d`.
unfoldable pub first_leaf : ℕ → ℕ → ℕ
first_leaf zero i = i
first_leaf (suc d) i = first_leaf d (2 * i)

pub ancestor-half : (d n : ℕ) → ancestor d (n / 2) ≡ ancestor d n / 2
unfolding ancestor
ancestor-half zero n = refl
ancestor-half (suc d) n = ap (λ (t : ℕ). t / 2) (ancestor-half d n)

-- Above a tree of height `d` there is one root.
pub ancestor-root : (d n : ℕ) → n < 2 ^ d → ancestor d n ≡ 0
unfolding ancestor
ancestor-root zero n h = omega arith
ancestor-root (suc d) n h =
    omega (arith, ancestor-half d n, ancestor-root d (n / 2) (omega (arith, two-pow-succ d)))

first_leaf_mono : (d i j : ℕ) → i ≤ j → first_leaf d i ≤ first_leaf d j
unfolding first_leaf
first_leaf_mono zero i j h = h
first_leaf_mono (suc d) i j h = first_leaf_mono d (2 * i) (2 * j) (omega arith)

-- A leaf lies before the node that follows its ancestor.
pub lt-first_leaf-ancestor : (d n : ℕ) → n < first_leaf d (ancestor d n + 1)
unfolding first_leaf ancestor
lt-first_leaf-ancestor zero n = omega arith
lt-first_leaf-ancestor (suc d) n = omega (
  arith,
  lt-first_leaf-ancestor d n,
  first_leaf_mono d (ancestor d n + 1) (2 * (ancestor d n / 2 + 1)) (omega arith),
)

module _ {ℓ} {A : Type ℓ} (pair : A → A → A) where
  unfoldable pub node : (ℕ → A) → ℕ → ℕ → A
  node leaf zero i = leaf i
  node leaf (suc d) i = pair (node leaf d (2 * i)) (node leaf d (2 * i + 1))

  -- The root of an empty tree of height `d`.
  unfoldable pub empty_root : A → ℕ → A
  empty_root z zero = z
  empty_root z (suc d) = pair (empty_root z d) (empty_root z d)

  -- A node depends on the leaves below it alone.
  pub node-agree :
      (f g : ℕ → A) (n : ℕ)
      → ((i : ℕ) → i < n → f i ≡ g i)
      → (d i : ℕ) → i < ancestor d n
      → node f d i ≡ node g d i
  unfolding node ancestor
  node-agree f g n same zero i h = same i h
  node-agree f g n same (suc d) i h = rw (
    node-agree f g n same d (2 * i) (omega arith),
    node-agree f g n same d (2 * i + 1) (omega arith),
  )

  -- Where no leaf is filled the node is that of an empty tree.
  pub node-empty :
      (f : ℕ → A) (z : A) (n : ℕ)
      → ((i : ℕ) → n ≤ i → f i ≡ z)
      → (d i : ℕ) → n ≤ first_leaf d i
      → node f d i ≡ empty_root z d
  unfolding node empty_root first_leaf
  node-empty f z n blank zero i h = blank i h
  node-empty f z n blank (suc d) i h = rw (
    node-empty f z n blank d (2 * i) h,
    node-empty f z n blank d (2 * i + 1)
        (omega (arith, first_leaf_mono d (2 * i) (2 * i + 1) (omega arith))),
  )
