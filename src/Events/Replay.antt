-- ===== src/Events/Replay.antt =====
-- `fetchPoolLeaves` gives the leaves of the pool, whatever the order of its history.
use kirite.Prelude.{
  ℕ, zero, suc, ◌+◌, ◌≤◌, ◌<◌, ◌≡◌, refl, sym, ap, ◌∙◌, ◌≢◌, ◌⊎◌, inl, inr, true, false, List, [],
  ◌∷◌, ◌++◌, map, Option, none, some, Bool-cases, Result, Result-cases, ok, err, length, get_elem?,
  get_or, All, ◌==◌, arith,
}
use kirite.Bytes.{Bytes}
use kirite.Web3.{Web3}
use kirite.Events.{
  Map, map_set, map_get, set_event, key_bound, entries, Line, SignatureInfo, Chain, event_of_line,
  scan_line, scan_lines, lines_of, scan_signatures, fetch_pool_leaves,
}

get_elem?-lt : (xs : List Bytes) (i : ℕ) {c : Bytes} → get_elem? xs i ≡ some c → i < length xs
get_elem?-lt [] i h = cc
get_elem?-lt (x ∷ xs) zero h = omega arith
get_elem?-lt (x ∷ xs) (suc i) h = omega (arith, get_elem?-lt xs i h)

get_elem?_of_lt : (xs : List Bytes) (i : ℕ) → i < length xs → get_elem? xs i ≡ some (get_or xs i [])
get_elem?_of_lt [] i h = absurd (omega arith)
get_elem?_of_lt (x ∷ xs) zero h = refl
get_elem?_of_lt (x ∷ xs) (suc i) h = get_elem?_of_lt xs i (omega arith)

map_get-set : (m : Map) (k : ℕ) (v : Bytes) → map_get (map_set m k v) k ≡ some v
unfolding map_get map_set
map_get-set [] k v = ground arith
map_get-set ((j, u) ∷ rest) k v = ground (arith, map_get-set rest k v)

map_get-set_other :
    (m : Map) (k : ℕ) (v : Bytes) (j : ℕ) → k ≢ j → map_get (map_set m k v) j ≡ map_get m j
unfolding map_get map_set
map_get-set_other [] k v j h = ground arith
map_get-set_other ((i, u) ∷ rest) k v j h = ground (arith, map_get-set_other rest k v j h)

key_bound-get : (m : Map) (k : ℕ) (v : Bytes) → map_get m k ≡ some v → k < key_bound m
unfolding map_get key_bound
key_bound-get [] k v h = cc
key_bound-get ((j, u) ∷ rest) k v h = ground (arith, key_bound-get rest k v)

entries-eq :
    (xs : List Bytes) (m : Map) (i : ℕ)
    → ((k : ℕ) → k < length xs → map_get m (i + k) ≡ get_elem? xs k)
    → entries m i (length xs) ≡ map some xs
unfolding entries
entries-eq [] m i same = refl
entries-eq (x ∷ xs) m i same =
    let here : i ≡ i + 0 = omega arith in
    let rest = entries-eq xs m (i + 1) (λ k h.
      let next : i + 1 + k ≡ i + suc k = omega arith in
      ap (map_get m) next ∙ same (suc k) (omega arith)) in
    let first : map_get m i ≡ some x = ap (map_get m) here ∙ same 0 (omega arith) in
    rw (first, rest)

bound_eq : (b n : ℕ) → b ≤ n → ((i : ℕ) → i < n → i < b) → b ≡ n
bound_eq b zero le below = omega arith
bound_eq b (suc n) le below = omega (arith, below n (omega arith))

module _ (leaves : List Bytes) where
  -- An event gives the leaf that stands at its index.
  abbrev pub IsLeaf : Option (ℕ × Bytes) → Type 0
  IsLeaf none = Unit
  IsLeaf (some (i, c)) = get_elem? leaves i ≡ some c

  Agrees : Map → Type 0
  Agrees [] = Unit
  Agrees ((k, v) ∷ rest) = (get_elem? leaves k ≡ some v) × Agrees rest

  HasLeaf : Map → ℕ → Type 0
  HasLeaf m k = map_get m k ≡ get_elem? leaves k

  Agrees-map_set :
      (m : Map) (k : ℕ) (v : Bytes)
      → get_elem? leaves k ≡ some v
      → Agrees m
      → Agrees (map_set m k v)
  unfolding Agrees map_set
  Agrees-map_set [] k v leaf all = (leaf, tt)
  Agrees-map_set ((j, u) ∷ rest) k v leaf (same, all) = elim (Bool-cases (j == k)) [
    | inl eq ↦ rw eq (leaf, all)
    | inr ne ↦ rw ne (same, Agrees-map_set rest k v leaf all)
  ]

  HasLeaf-map_set :
      (m : Map) (k : ℕ) (v : Bytes) (j : ℕ)
      → get_elem? leaves k ≡ some v
      → HasLeaf m j
      → HasLeaf (map_set m k v) j
  unfolding HasLeaf
  HasLeaf-map_set m k v j leaf has = elim (Bool-cases (k == j)) [
    | inl eq ↦ let same : k ≡ j = ground arith in rw (← same) (map_get-set m k v ∙ sym leaf)
    | inr ne ↦ let other : k ≢ j = ground arith in map_get-set_other m k v j other ∙ has
  ]

  key_bound-le : (m : Map) → Agrees m → key_bound m ≤ length leaves
  unfolding Agrees key_bound
  key_bound-le [] all = omega arith
  key_bound-le ((k, v) ∷ rest) (leaf, all) =
      ground (arith, key_bound-le rest all, get_elem?-lt leaves k leaf)

  key_bound-HasLeaf : (m : Map) (i : ℕ) → HasLeaf m i → i < length leaves → i < key_bound m
  unfolding HasLeaf
  key_bound-HasLeaf m i has small =
      key_bound-get m i (get_or leaves i []) (has ∙ get_elem?_of_lt leaves i small)

  Agrees-set_event :
      (m : Map) (evt : Option (ℕ × Bytes)) → IsLeaf evt → Agrees m → Agrees (set_event m evt)
  unfolding set_event
  Agrees-set_event m none leaf all = all
  Agrees-set_event m (some (i, c)) leaf all = Agrees-map_set m i c leaf all

  HasLeaf-set_event :
      (m : Map) (evt : Option (ℕ × Bytes)) (j : ℕ)
      → IsLeaf evt
      → HasLeaf m j
      → HasLeaf (set_event m evt) j
  unfolding set_event
  HasLeaf-set_event m none j leaf has = has
  HasLeaf-set_event m (some (i, c)) j leaf has = HasLeaf-map_set m i c j leaf has

  HasLeaf-set_event_same :
      (m : Map) (i : ℕ) (c : Bytes)
      → get_elem? leaves i ≡ some c
      → HasLeaf (set_event m (some (i, c))) i
  unfolding set_event HasLeaf
  HasLeaf-set_event_same m i c leaf = map_get-set m i c ∙ sym leaf

  module _ (w : Web3) (chain : Chain) (pool_key : w.PublicKey) where
    open chain use {Signature, get_signatures, get_transaction}

    -- Some line of the list is an event with the leaf at the index.
    abbrev pub IsLogged : ℕ → List Line → Type 0
    IsLogged i [] = ⊥
    IsLogged i (line ∷ rest) =
        (event_of_line w chain pool_key line ≡ some (i, get_or leaves i [])) ⊎ IsLogged i rest

    abbrev pub AllLeaves : List Line → Type 0
    AllLeaves lines = All (λ line. IsLeaf (event_of_line w chain pool_key line)) lines

    -- The lines that the history's transactions logged, those that failed left out.
    unfoldable pub logged_lines : List (SignatureInfo Signature) → Result (List Line)
    logged_lines [] = ok []
    logged_lines (info ∷ rest) = elim info.failed [
      | true ↦ logged_lines rest
      | false ↦ elim (get_transaction info.signature) [
        | err e ↦ err e
        | ok tx ↦ elim (logged_lines rest) [
          | err e ↦ err e
          | ok lines ↦ ok (lines_of w chain pool_key tx ++ lines)
        ]
      ]
    ]

    scan_lines-append :
        (m : Map) (first second : List Line)
        → scan_lines w chain pool_key m (first ++ second)
          ≡ scan_lines w chain pool_key (scan_lines w chain pool_key m first) second
    unfolding scan_lines
    scan_lines-append m [] second = refl
    scan_lines-append m (line ∷ first) second =
        scan_lines-append (scan_line w chain pool_key m line) first second

    scan_signatures-lines :
        (m : Map) (sigs : List (SignatureInfo Signature)) (lines : List Line)
        → logged_lines sigs ≡ ok lines
        → scan_signatures w chain pool_key m sigs ≡ ok (scan_lines w chain pool_key m lines)
    unfolding logged_lines scan_signatures scan_lines
    scan_signatures-lines m [] [] h = refl
    scan_signatures-lines m [] (l ∷ ls) h = cc
    scan_signatures-lines m (info ∷ rest) lines h = elim (Bool-cases info.failed) [
      | inl failed ↦ rw failed (scan_signatures-lines m rest lines (rw failed at h))
      | inr passed ↦ elim (Result-cases (get_transaction info.signature)) [
        | inr (e, throws) ↦ cc (rw (passed, throws) at h)
        | inl (tx, fetched) ↦ elim (Result-cases (logged_lines rest)) [
          | inr (e, throws) ↦ cc (rw (passed, fetched, throws) at h)
          | inl (ls, logged) ↦
              let h' = rw (passed, fetched, logged) at h in
              let same : lines_of w chain pool_key tx ++ ls ≡ lines = cc in
              let next = scan_lines w chain pool_key m (lines_of w chain pool_key tx) in
              rw (passed, fetched, ← same, scan_lines-append m (lines_of w chain pool_key tx) ls)
                (scan_signatures-lines next rest ls logged)
        ]
      ]
    ]

    scan_lines-Agrees :
        (m : Map) (lines : List Line)
        → AllLeaves lines
        → Agrees m
        → Agrees (scan_lines w chain pool_key m lines)
    unfolding scan_lines
    scan_lines-Agrees m [] leaf agrees = agrees
    scan_lines-Agrees m (line ∷ rest) (leaf, all) agrees =
        scan_lines-Agrees (scan_line w chain pool_key m line) rest all
          (Agrees-set_event m (event_of_line w chain pool_key line) leaf agrees)

    scan_lines-HasLeaf :
        (m : Map) (lines : List Line) (i : ℕ)
        → AllLeaves lines
        → HasLeaf m i
        → HasLeaf (scan_lines w chain pool_key m lines) i
    unfolding scan_lines
    scan_lines-HasLeaf m [] i leaf has = has
    scan_lines-HasLeaf m (line ∷ rest) i (leaf, all) has =
        scan_lines-HasLeaf (scan_line w chain pool_key m line) rest i all
          (HasLeaf-set_event m (event_of_line w chain pool_key line) i leaf has)

    scan_lines-IsLogged :
        (m : Map) (lines : List Line) (i : ℕ)
        → i < length leaves
        → AllLeaves lines
        → IsLogged i lines
        → HasLeaf (scan_lines w chain pool_key m lines) i
    unfolding scan_lines
    scan_lines-IsLogged m [] i small all logged = absurd logged
    scan_lines-IsLogged m (line ∷ rest) i small (leaf, all) (inl here) =
        scan_lines-HasLeaf (scan_line w chain pool_key m line) rest i all (
          rw here
            (HasLeaf-set_event_same m i (get_or leaves i []) (get_elem?_of_lt leaves i small)))
    scan_lines-IsLogged m (line ∷ rest) i small (leaf, all) (inr there) =
        scan_lines-IsLogged (scan_line w chain pool_key m line) rest i small all there

    -- Where every event of the pool in the lines that the history logged is a leaf at its index, and
    -- every leaf stands in such an event, `fetchPoolLeaves` gives the leaves, in whatever order and
    -- however often the history has them.
    pub fetch_pool_leaves-replay :
        (limit : ℕ) (sigs : List (SignatureInfo Signature)) (lines : List Line)
        → get_signatures limit ≡ ok sigs
        → logged_lines sigs ≡ ok lines
        → AllLeaves lines
        → ((i : ℕ) → i < length leaves → IsLogged i lines)
        → fetch_pool_leaves w chain pool_key limit ≡ ok (map some leaves)
    unfolding fetch_pool_leaves HasLeaf Agrees
    fetch_pool_leaves-replay limit sigs lines answer logged all each =
        let m = scan_lines w chain pool_key [] lines in
        let has : (i : ℕ) → i < length leaves → HasLeaf m i =
          λ i small. scan_lines-IsLogged [] lines i small all (each i small) in
        let bound : key_bound m ≡ length leaves =
          bound_eq (key_bound m) (length leaves)
            (key_bound-le m (scan_lines-Agrees [] lines all tt))
            (λ i small. key_bound-HasLeaf m i (has i small) small) in
        rw (answer, fetch_pool_leaves, scan_signatures-lines [] sigs lines logged, bound)
          (ap ok (
            entries-eq leaves m 0
              (λ k h. let start : 0 + k ≡ k = omega arith in ap (map_get m) start ∙ has k h)))
