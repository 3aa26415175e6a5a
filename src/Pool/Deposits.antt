-- ===== src/Pool/Deposits.antt =====
-- What a deposit that succeeds has checked and changed.
use kirite.Prelude.{
  leb→le, rest_of_ok, ok-injective, ℕ, ◌+◌, ◌-◌, ◌≤◌, ◌<◌, ◌^◌, ◌≡◌, refl, sym, ap, ◌∙◌, Bool, true,
  false, List, [], ◌∷◌, Result, ok, Error, All, ltb, ==_iff, arith,
}
use kirite.Bytes.{Bytes}
use kirite.Web3.{Web3}
use kirite.Merkle.OnChain.{Tree, insert_leaf_light, deposit_leaf}
use kirite.Merkle.OnChain.Deposits.{deposit_leaf_lem}
use kirite.Roots.Window.{push_root-current}
use kirite.Roots.{Roots, push_root}
use kirite.Verifier.{is_canonical_field_element}
use kirite.Pool.{
  Pool, DepositAccounts, Deposited, TokenProgram, require, require_all, deposit_guards,
  deposit_requirements, deposited, deposit_effects, handle_deposit,
}

pub require_all-All :
    (gs : List (Bool × Error)) {u : Unit {0}} → require_all gs ≡ ok u → All (λ g. g.0 ≡ true) gs
unfolding require_all
require_all-All [] h = tt
require_all-All ((true, e) ∷ gs) h = (refl, require_all-All gs h)
require_all-All ((false, e) ∷ gs) h = cc

-- The tree of a pool, with the current root for its root.
abbrev pub tree_of : {K : Type 0} → Pool K → Tree Bytes
tree_of pool = record {
  filled_subtrees = pool.filled_subtrees;
  next_leaf_index = pool.next_leaf_index;
  current_root = pool.roots.current_root;
}

module _ (w : Web3) (program_id : w.PublicKey) (token : TokenProgram)
    (hash_pair : Bytes → Bytes → Result Bytes) (empty_leaf : Bytes) where
  open w use {PublicKey}

  pub deposit_guards-passed :
      (pool : Pool PublicKey) (accounts : DepositAccounts PublicKey) (c : Bytes) {u : Unit {0}}
      → deposit_guards w program_id token hash_pair empty_leaf pool accounts c ≡ ok u
      → (is_canonical_field_element c ≡ true)
        × (pool.is_frozen ≡ 0)
        × (pool.denomination ≤ accounts.depositor_amount)
  unfolding deposit_guards deposit_requirements
  deposit_guards-passed pool accounts c h =
      let all =
        require_all-All
          (deposit_requirements w program_id token hash_pair empty_leaf pool accounts c) h in
      (
        all.1.1.1.1.1.1.1.0,
        (==_iff pool.is_frozen 0).0 all.1.1.1.0,
        leb→le pool.denomination accounts.depositor_amount all.1.1.1.1.1.1.1.1.1.0,
      )

  deposited-facts :
      (pool : Pool PublicKey) (accounts : DepositAccounts PublicKey) (c : Bytes) (moved : ℕ × ℕ)
      (inserted : List Bytes × Bytes) (roots : Roots)
      → pool.denomination ≤ accounts.depositor_amount
      → accounts.vault_amount + pool.denomination < 2 ^ 64
      → token.transfer accounts.depositor_amount accounts.vault_amount pool.denomination ≡ ok moved
      → insert_leaf_light hash_pair empty_leaf c pool.next_leaf_index pool.filled_subtrees
        ≡ ok inserted
      → push_root pool.roots inserted.1 ≡ ok roots
      → {out : Deposited PublicKey}
      → deposited w program_id token hash_pair empty_leaf pool accounts c moved inserted roots ≡ out
      → (deposit_leaf hash_pair empty_leaf (tree_of pool) c ≡ ok (tree_of out.pool))
        × (out.event.leaf_index ≡ pool.next_leaf_index)
        × (out.event.commitment ≡ c)
        × (out.depositor_amount + pool.denomination ≡ accounts.depositor_amount)
        × (out.vault_amount ≡ accounts.vault_amount + pool.denomination)
  unfolding deposited
  deposited-facts pool accounts c moved inserted roots funded room transferred grown pushed same =
      rw (← same) (
        let sums : moved ≡ (
          accounts.depositor_amount - pool.denomination,
          accounts.vault_amount + pool.denomination,
        ) =
          ok-injective _ _ (sym transferred ∙ token.transfer-ok _ _ _ funded room) in
        let taken : moved.0 ≡ accounts.depositor_amount - pool.denomination =
          ap (λ (t : ℕ × ℕ). t.0) sums in
        (
          rw (push_root-current pool.roots inserted.1 pushed)
              (deposit_leaf_lem hash_pair empty_leaf (tree_of pool) c inserted grown),
          refl,
          refl,
          omega (arith, taken),
          ap (λ (t : ℕ × ℕ). t.1) sums,
        ))

  -- A deposit that succeeds was of a canonical commitment into a pool that is not frozen; the tree and
  -- the current root of the pool are those of the insertion at the next index, the event names that
  -- index and the commitment, and the depositor's amount has gone down by the denomination and the
  -- vault's up by it, where the vault's amount stays below 2 ^ 64.
  pub handle_deposit-ok :
      (pool : Pool PublicKey) (accounts : DepositAccounts PublicKey) (c : Bytes)
      (out : Deposited PublicKey)
      → handle_deposit w program_id token hash_pair empty_leaf pool accounts c ≡ ok out
      → accounts.vault_amount + pool.denomination < 2 ^ 64
      → (is_canonical_field_element c ≡ true)
        × (pool.is_frozen ≡ 0)
        × (deposit_leaf hash_pair empty_leaf (tree_of pool) c ≡ ok (tree_of out.pool))
        × (out.event.leaf_index ≡ pool.next_leaf_index)
        × (out.event.commitment ≡ c)
        × (out.depositor_amount + pool.denomination ≡ accounts.depositor_amount)
        × (out.vault_amount ≡ accounts.vault_amount + pool.denomination)
  unfolding handle_deposit deposit_effects
  handle_deposit-ok pool accounts c out h room =
      let (passed, guarded, moving) =
        rest_of_ok (deposit_guards w program_id token hash_pair empty_leaf pool accounts c) _ h in
      let (canonical, thawed, funded) = deposit_guards-passed pool accounts c guarded in
      let (moved, transferred, inserting) =
        rest_of_ok
          (token.transfer accounts.depositor_amount accounts.vault_amount pool.denomination) _
          moving in
      let (inserted, grown, pushing) =
        rest_of_ok
          (insert_leaf_light hash_pair empty_leaf c pool.next_leaf_index pool.filled_subtrees) _
          inserting in
      let (roots, pushed, counting) = rest_of_ok (push_root pool.roots inserted.1) _ pushing in
      let (counted, fits, ending) =
        rest_of_ok (require (ltb (pool.next_leaf_index + 1) (2 ^ 32)) Error.pool_capacity_exceeded)
          _ counting in
      let same = ok-injective _ out ending in
      let facts =
        deposited-facts pool accounts c moved inserted roots funded room transferred grown pushed
          same in
      (canonical, thawed, facts.0, facts.1, facts.2, facts.3, facts.4)
