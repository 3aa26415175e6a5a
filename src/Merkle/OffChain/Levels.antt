-- ===== src/Merkle/OffChain/Levels.antt =====
-- Each level that the prover builds lists the nodes of the tree at that depth.
use kirite.Prelude.{
  ℕ, zero, suc, ◌+◌, ◌*◌, ◌<◌, ◌≡◌, refl, ap, Option, none, some, List, [], ◌∷◌, ok, length,
  get_elem?, get_or, arith,
}
use kirite.Bytes.{Bytes}
use kirite.Poseidon.{Poseidon, hash_nodes}
use kirite.Merkle.Tree.{node}
use kirite.Merkle.OffChain.{pad_leaves, next_level}

-- The list holds `f s`, `f (s + 1)`, and so on.
abbrev pub Lists : (ℕ → Bytes) → ℕ → List Bytes → Type 0
Lists f s [] = Unit
Lists f s (x ∷ xs) = (x ≡ f s) × Lists f (suc s) xs

pub get_elem?-Lists :
    (f : ℕ → Bytes) (s : ℕ) (xs : List Bytes) (i : ℕ)
    → Lists f s xs
    → i < length xs
    → get_elem? xs i ≡ some (f (s + i))
get_elem?-Lists f s [] i h lt = absurd (omega arith)
get_elem?-Lists f s (x ∷ xs) zero (here, h) lt =
    let start : s + 0 ≡ s = omega arith in rw start (ap some here)
get_elem?-Lists f s (x ∷ xs) (suc i) (here, h) lt =
    let next : s + suc i ≡ suc s + i = omega arith in
    rw next (get_elem?-Lists f (suc s) xs i h (omega arith))

-- The leaf of an index: a commitment, or the empty leaf in a hole and behind the last one.
abbrev pub leaf_or : Bytes → Option Bytes → Bytes
leaf_or z none = z
leaf_or z (some b) = b

abbrev pub leaf_of : List (Option Bytes) → Bytes → ℕ → Bytes
leaf_of leaves z i = leaf_or z (get_or leaves i none)

pub length-pad_leaves :
    (n : ℕ) (leaves : List (Option Bytes)) (z : Bytes) → length (pad_leaves n leaves z) ≡ n
unfolding pad_leaves
length-pad_leaves zero leaves z = refl
length-pad_leaves (suc n) [] z = ap suc (length-pad_leaves n [] z)
length-pad_leaves (suc n) (none ∷ leaves) z = ap suc (length-pad_leaves n leaves z)
length-pad_leaves (suc n) (some b ∷ leaves) z = ap suc (length-pad_leaves n leaves z)

module _ (z : Bytes) (f : ℕ → Bytes) where
  -- The lists of leaves from place `s` on.
  abbrev FromPlace : List (Option Bytes) → ℕ → Type 0
  FromPlace leaves s = (i : ℕ) → leaf_of leaves z i ≡ f (s + i)

  FromPlace-tail :
      (leaf : Option Bytes) (leaves : List (Option Bytes)) (s : ℕ)
      → FromPlace (leaf ∷ leaves) s
      → FromPlace leaves (suc s)
  FromPlace-tail leaf leaves s same i =
      let next : suc s + i ≡ s + suc i = omega arith in rw next (same (suc i))

  FromPlace-nil : (s : ℕ) → FromPlace [] s → FromPlace [] (suc s)
  FromPlace-nil s same i = let next : suc s + i ≡ s + suc i = omega arith in rw next (same (suc i))

  FromPlace-head :
      (leaf : Option Bytes) (leaves : List (Option Bytes)) (s : ℕ)
      → FromPlace (leaf ∷ leaves) s
      → leaf_or z leaf ≡ f s
  FromPlace-head leaf leaves s same = let start : s ≡ s + 0 = omega arith in rw start (same 0)

  pad_leaves-Lists :
      (n : ℕ) (leaves : List (Option Bytes)) (s : ℕ)
      → FromPlace leaves s
      → Lists f s (pad_leaves n leaves z)
  unfolding pad_leaves
  pad_leaves-Lists zero leaves s same = tt
  pad_leaves-Lists (suc n) [] s same =
      let start : s ≡ s + 0 = omega arith in
      (rw start (same 0), pad_leaves-Lists n [] (suc s) (FromPlace-nil s same))
  pad_leaves-Lists (suc n) (none ∷ leaves) s same = (
    FromPlace-head none leaves s same,
    pad_leaves-Lists n leaves (suc s) (FromPlace-tail none leaves s same),
  )
  pad_leaves-Lists (suc n) (some b ∷ leaves) s same = (
    FromPlace-head (some b) leaves s same,
    pad_leaves-Lists n leaves (suc s) (FromPlace-tail (some b) leaves s same),
  )

-- The padded array holds the leaf of each index.
pub pad_leaves-leaf_of :
    (n : ℕ) (leaves : List (Option Bytes)) (z : Bytes)
    → Lists (leaf_of leaves z) 0 (pad_leaves n leaves z)
pad_leaves-leaf_of n leaves z =
    pad_leaves-Lists z (leaf_of leaves z) n leaves 0
      (λ i. let same : 0 + i ≡ i = omega arith in rw same)

module _ (p : Poseidon) (leaf : ℕ → Bytes) (d : ℕ) where
  abbrev here : ℕ → Bytes
  here = node (hash_nodes p) leaf d

  abbrev above : ℕ → Bytes
  above = node (hash_nodes p) leaf (suc d)

  -- Of a level with the nodes of depth `d` the loop makes the nodes of depth `d + 1`.
  pub next_level-Lists :
      (n s : ℕ) (xs : List Bytes)
      → length xs ≡ 2 * n
      → Lists here (2 * s) xs
      → (ys : List Bytes) × (next_level p xs ≡ ok ys) × (length ys ≡ n) × Lists above s ys
  unfolding next_level node
  next_level-Lists zero s [] len h = ([], refl, refl, tt)
  next_level-Lists zero s (a ∷ xs) len h = absurd (omega arith)
  next_level-Lists (suc n) s [] len h = absurd (omega arith)
  next_level-Lists (suc n) s (a ∷ []) len h = absurd (omega arith)
  next_level-Lists (suc n) s (a ∷ b ∷ rest) len (left, (right, h)) =
      let start : suc (suc (2 * s)) ≡ 2 * suc s = omega arith in
      let second : suc (2 * s) ≡ 2 * s + 1 = omega arith in
      let (ys, run, count, listed) =
        next_level-Lists n (suc s) rest (omega arith) (rw start at h) in
      (hash_nodes p a b ∷ ys, rw run, ap suc count, (rw (left, right, second), listed))
