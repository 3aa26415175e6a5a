-- ===== src/Errors/Parsed.antt =====
-- What the text searches of the SDK find.
use kirite.Prelude.{
  ◌≡◌, refl, ap, ◌∙◌, sym, true, List, [], ◌∷◌, ◌++◌, append_assoc, append-nil, some, map, concat,
  Option-cases, Bool-cases, inl, inr, ◌==◌, ==_iff, codes, arith,
}
use kirite.Events.{Line, strip_prefix}
use kirite.Errors.{
  KiriteError, includes, to_lower, to_lower_case, join, classify, parse_transaction_error,
}

strip_prefix-append : (p rest : Line) → strip_prefix p (p ++ rest) ≡ some rest
unfolding strip_prefix
strip_prefix-append [] rest = refl
strip_prefix-append (c ∷ cs) rest = ground (arith, strip_prefix-append cs rest)

append-strip_prefix :
    (p text : Line) {rest : Line} → strip_prefix p text ≡ some rest → text ≡ p ++ rest
unfolding strip_prefix
append-strip_prefix [] text h = ground arith
append-strip_prefix (c ∷ cs) [] h = cc
append-strip_prefix (c ∷ cs) (x ∷ xs) {rest} h = elim (Bool-cases (c == x)) [
  | inr other ↦ cc (rw other at h)
  | inl same ↦ cc ((==_iff c x).0 same, append-strip_prefix cs xs (rw same at h))
]

includes-here :
    (p text : Line) {rest : Line} → strip_prefix p text ≡ some rest → includes p text ≡ true
unfolding includes
includes-here p [] h = rw (h, includes) refl
includes-here p (c ∷ cs) h = rw (h, includes) refl

-- A text is found wherever it stands.
pub includes-of : (p before after : Line) → includes p (before ++ (p ++ after)) ≡ true
unfolding includes
includes-of p [] after = includes-here p (p ++ after) (strip_prefix-append p after)
includes-of p (c ∷ before) after =
    elim (Option-cases (strip_prefix p (c ∷ (before ++ (p ++ after))))) [
      | inl other ↦ rw (other, includes) (includes-of p before after)
      | inr (rest, found) ↦ rw (found, includes) refl
    ]

-- What is found stands somewhere.
pub eq_of_includes :
    (p text : Line)
    → includes p text ≡ true
    → (before : Line) × (after : Line) × (text ≡ before ++ (p ++ after))
unfolding includes
eq_of_includes p [] h = elim (Option-cases (strip_prefix p [])) [
  | inl other ↦ cc (rw (other, includes) at h)
  | inr (rest, found) ↦ ([], rest, append-strip_prefix p [] found)
]
eq_of_includes p (c ∷ cs) h = elim (Option-cases (strip_prefix p (c ∷ cs))) [
  | inr (rest, found) ↦ ([], rest, append-strip_prefix p (c ∷ cs) found)
  | inl other ↦
      let (before, after, same) = eq_of_includes p cs (rw (other, includes) at h) in
      (c ∷ before, after, ap (c ∷◌) same)
]

to_lower_case-append : (a b : Line) → to_lower_case (a ++ b) ≡ to_lower_case a ++ to_lower_case b
unfolding to_lower_case
to_lower_case-append [] b = refl
to_lower_case-append (c ∷ a) b =
    ap (to_lower c ++◌) (to_lower_case-append a b)
    ∙ sym (append_assoc (to_lower c) (concat (map to_lower a)) (concat (map to_lower b)))

-- The lines that are joined hold each of their lines.
join-holds :
    (separator : Line) (above : List Line) (line : Line) (below : List Line)
    → (before : Line) × (after : Line) × (join separator (above ++ line ∷ below)
        ≡ before ++ (line ++ after))
unfolding join
join-holds separator [] line [] = ([], [], sym (append-nil line))
join-holds separator [] line (next ∷ below) = ([], separator ++ join separator (next ∷ below), refl)
join-holds separator (first ∷ []) line below =
    let (before, after, same) = join-holds separator [] line below in
    (first ++ (separator ++ before), after, rw same (simp append_assoc))
join-holds separator (first ∷ second ∷ above) line below =
    let (before, after, same) = join-holds separator (second ∷ above) line below in
    (first ++ (separator ++ before), after, rw same (simp append_assoc))

-- The parts of the message that `classify` looks for, wherever it stands.
classify-consumed :
    (before after : Line)
    → classify (before ++ (to_lower_case (codes "Nullifier has already been consumed") ++ after))
      ≡ some (KiriteError.nullifier_spent (codes "(see logs)"))
unfolding classify to_lower_case to_lower
classify-consumed before after =
    let first =
      includes-of (codes "nullifier") before (codes " has already been consumed" ++ after) in
    let second =
      includes-of (codes "already") (before ++ codes "nullifier has ")
        (codes " been consumed" ++ after) in
    let second' : includes (codes "already")
          (before ++ (to_lower_case (codes "Nullifier has already been consumed") ++ after))
        ≡ true =
      rw append_assoc at second in
    rw (first, second', classify) refl

parse_transaction_error-lines :
    (above : List Line) (line : Line) (below : List Line)
    → parse_transaction_error (some (above ++ line ∷ below))
      ≡ classify (to_lower_case (join (10 ∷ []) (above ++ line ∷ below)))
unfolding parse_transaction_error
parse_transaction_error-lines [] line below = refl
parse_transaction_error-lines (first ∷ above) line below = refl

-- Logs in which the program's message on a spent nullifier stands, in any of their lines, are told as a
-- `NullifierSpentError`, whatever else they hold.
pub parse_transaction_error-consumed :
    (above below : List Line) (before after : Line)
    → parse_transaction_error
        (some (above ++ (before ++ (codes "Nullifier has already been consumed" ++ after)) ∷ below))
      ≡ some (KiriteError.nullifier_spent (codes "(see logs)"))
parse_transaction_error-consumed above below before after =
    let text = codes "Nullifier has already been consumed" in
    let (before', after', joined) = join-holds (10 ∷ []) above (before ++ (text ++ after)) below in
    let low : to_lower_case (before' ++ ((before ++ (text ++ after)) ++ after'))
        ≡ (to_lower_case before' ++ to_lower_case before)
          ++ (to_lower_case text ++ (to_lower_case after ++ to_lower_case after')) =
      simp (to_lower_case-append, append_assoc) in
    parse_transaction_error-lines above (before ++ (text ++ after)) below
    ∙ rw (joined, low) (classify-consumed _ _)
