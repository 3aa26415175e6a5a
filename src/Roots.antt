-- ===== src/Roots.antt =====
-- The ring of roots that a withdrawal may refer to: `push_root` and `is_known_root` of
-- programs/kirite/src/state/shield_pool.rs.
pub mod Window
use kirite.Prelude.{
  ℕ, zero, suc, ◌+◌, ◌%◌, Bool, false, ◌||◌, List, [], ◌∷◌, Result, ok, err, Error, ◌>>=◌, bytes_eq,
}
use kirite.Bytes.{Bytes}

-- `MAX_HISTORICAL_ROOTS`
abbrev pub max_historical_roots : ℕ
max_historical_roots = 3

-- The part of a `ShieldPool` that holds roots.
pub record Roots : Type 0 where
  pub current_root : Bytes
  pub historical_roots : List Bytes
  pub root_history_index : ℕ

-- `xs[i] = x`, which panics beyond the end.
unfoldable pub set_at : List Bytes → ℕ → Bytes → Result (List Bytes)
set_at [] i x = err Error.index_out_of_bounds
set_at (y ∷ ys) zero x = ok (x ∷ ys)
set_at (y ∷ ys) (suc i) x = do rest ← set_at ys i x; ok (y ∷ rest)

unfoldable pub push_root : Roots → Bytes → Result Roots
unfolding set_at
push_root r root = do
  historical_roots ← set_at r.historical_roots r.root_history_index root
  ok (record {
    current_root = root;
    historical_roots = historical_roots;
    root_history_index = (r.root_history_index + 1) % max_historical_roots;
  })

-- `roots.iter().any(|r| r == root)`
unfoldable pub any_root : List Bytes → Bytes → Bool
any_root [] root = false
any_root (r ∷ rest) root = bytes_eq r root || any_root rest root

unfoldable pub is_known_root : Roots → Bytes → Bool
unfolding any_root
is_known_root r root = bytes_eq r.current_root root || any_root r.historical_roots root

-- Roots pushed one after another.
pub push_roots : Roots → List Bytes → Result Roots
unfolding push_root
push_roots r [] = ok r
push_roots r (root ∷ rest) = do next ← push_root r root; push_roots next rest
