-- ===== src/Membership/Circuit.antt =====
-- The constraints of circuits/membership.circom. A signal is an element of the field, and an input
-- that is a number is made an element first.
use kirite.Prelude.{ℕ, ◌≡◌, ◌⊎◌, List, [], ◌∷◌, All, length, ◌==◌, if◌then◌else◌}
use kirite.Poseidon.{Poseidon}
use kirite.Membership.{CircuitInput}

module _ (p : Poseidon) where
  open p use {Fe, e, hash}

  -- `MerklePathSelector` and the hash of its two outputs, level by level: `levelHash[levels]`.
  unfoldable pub level_hash : List ℕ → List ℕ → Fe → Fe
  level_hash [] indices current = current
  level_hash (sibling ∷ rest) [] current = current
  level_hash (sibling ∷ rest) (bit ∷ bits) current =
      level_hash rest bits
        (if bit == 0 then hash (current ∷ e sibling ∷ []) else hash (e sibling ∷ current ∷ []))

  unfoldable pub leaf_hash : CircuitInput → Fe
  leaf_hash w = hash (e w.nullifier_secret ∷ e w.amount ∷ e w.blinding_factor ∷ e w.leaf_index ∷ [])

  -- `Membership(levels)`
  pub record Satisfies (levels : ℕ) (w : CircuitInput) : Type 0 where
    pub elements : length w.path_elements ≡ levels
    pub indices : length w.path_indices ≡ levels
    pub bits : All (λ b. (b ≡ 0) ⊎ (b ≡ 1)) w.path_indices
    pub root : level_hash w.path_elements w.path_indices (leaf_hash w) ≡ e w.root
    pub nullifier : e w.nullifier_hash ≡ hash (e w.nullifier_secret ∷ e w.leaf_index ∷ [])
