-- ===== src/Transactions/Fee.antt =====
-- `getMedianPriorityFee` and `estimateTransactionFee` of sdk/src/utils/transaction.ts.
use kirite.Prelude.{
  ℕ, zero, suc, ◌+◌, ◌*◌, ◌/◌, ◌≤◌, ◌<◌, ◌≡◌, inl, inr, refl, List, [], ◌∷◌, Option, none, some,
  All, length, get_or, ltb, leb, Bool-cases, if◌then◌else◌, arith,
}
use kirite.Transactions.{Outcome, throws, returns}

-- `fees.filter((f) => f > 0)`
pub positive : List ℕ → List ℕ
positive [] = []
positive (f ∷ fees) = if ltb 0 f then f ∷ positive fees else positive fees

-- `fees.sort((a, b) => a - b)`
pub insert_fee : ℕ → List ℕ → List ℕ
insert_fee f [] = f ∷ []
insert_fee f (g ∷ gs) = if leb f g then f ∷ (g ∷ gs) else g ∷ insert_fee f gs

pub sort_fees : List ℕ → List ℕ
unfolding insert_fee
sort_fees [] = []
sort_fees (f ∷ fees) = insert_fee f (sort_fees fees)

-- `Math.max(sorted[Math.floor(sorted.length * 0.75)], fallback)`
pub percentile : ℕ → List ℕ → ℕ
percentile fallback [] = fallback
percentile fallback (f ∷ fees) =
    let fee = get_or (f ∷ fees) (length (f ∷ fees) * 3 / 4) 0 in
    if ltb fee fallback then fallback else fee

-- On the fees that the connection gives, `none` where it gives none.
pub get_median_priority_fee : Outcome (Option (List ℕ)) → ℕ → ℕ
unfolding positive sort_fees percentile
get_median_priority_fee (throws e) fallback = fallback
get_median_priority_fee (returns none) fallback = fallback
get_median_priority_fee (returns (some fees)) fallback =
    percentile fallback (sort_fees (positive fees))

-- The fees of at most `n`.
pub count_le : ℕ → List ℕ → ℕ
count_le n [] = 0
count_le n (f ∷ fees) = (if leb f n then 1 else 0) + count_le n fees

IsSorted : List ℕ → Type 0
IsSorted [] = Unit
IsSorted (f ∷ fees) = All (λ g. f ≤ g) fees × IsSorted fees

insert_fee-All :
    (n f : ℕ) (gs : List ℕ) → n ≤ f → All (λ g. n ≤ g) gs → All (λ g. n ≤ g) (insert_fee f gs)
unfolding insert_fee
insert_fee-All n f [] h all = (h, tt)
insert_fee-All n f (g ∷ gs) h (first, rest) = elim (Bool-cases (leb f g)) [
  | inl before ↦ rw before (h, (first, rest))
  | inr behind ↦ rw behind (first, insert_fee-All n f gs h rest)
]

All-le : (f g : ℕ) (gs : List ℕ) → f ≤ g → All (λ x. g ≤ x) gs → All (λ x. f ≤ x) gs
All-le f g [] h all = tt
All-le f g (x ∷ gs) h (first, rest) = (omega arith, All-le f g gs h rest)

insert_fee-IsSorted : (f : ℕ) (gs : List ℕ) → IsSorted gs → IsSorted (insert_fee f gs)
unfolding IsSorted insert_fee
insert_fee-IsSorted f [] h = (tt, tt)
insert_fee-IsSorted f (g ∷ gs) (all, h) = elim (Bool-cases (leb f g)) [
  | inl before ↦ let le : f ≤ g = ground arith in rw before ((le, All-le f g gs le all), (all, h))
  | inr behind ↦
      let le : g ≤ f = ground arith in
      rw behind (insert_fee-All g f gs le all, insert_fee-IsSorted f gs h)
]

sort_fees-IsSorted : (fees : List ℕ) → IsSorted (sort_fees fees)
unfolding sort_fees IsSorted
sort_fees-IsSorted [] = tt
sort_fees-IsSorted (f ∷ fees) = insert_fee-IsSorted f (sort_fees fees) (sort_fees-IsSorted fees)

count_le-insert_fee :
    (n f : ℕ) (gs : List ℕ)
    → count_le n (insert_fee f gs) ≡ (if leb f n then 1 else 0) + count_le n gs
unfolding count_le insert_fee
count_le-insert_fee n f [] = refl
count_le-insert_fee n f (g ∷ gs) = elim (Bool-cases (leb f g)) [
  | inl before ↦ rw before refl
  | inr behind ↦ rw behind (omega (arith, count_le-insert_fee n f gs))
]

count_le-sort_fees : (n : ℕ) (fees : List ℕ) → count_le n (sort_fees fees) ≡ count_le n fees
unfolding count_le sort_fees
count_le-sort_fees n [] = refl
count_le-sort_fees n (f ∷ fees) =
    omega (arith, count_le-insert_fee n f (sort_fees fees), count_le-sort_fees n fees)

length-insert_fee : (f : ℕ) (gs : List ℕ) → length (insert_fee f gs) ≡ length gs + 1
unfolding insert_fee
length-insert_fee f [] = omega arith
length-insert_fee f (g ∷ gs) = ground (arith, length-insert_fee f gs)

length-sort_fees : (fees : List ℕ) → length (sort_fees fees) ≡ length fees
unfolding sort_fees
length-sort_fees [] = refl
length-sort_fees (f ∷ fees) =
    omega (arith, length-insert_fee f (sort_fees fees), length-sort_fees fees)

All-get_or : (f : ℕ) (gs : List ℕ) (i : ℕ) → All (λ g. f ≤ g) gs → i < length gs → f ≤ get_or gs i 0
All-get_or f [] i all h = absurd (omega arith)
All-get_or f (g ∷ gs) zero (first, rest) h = first
All-get_or f (g ∷ gs) (suc i) (first, rest) h = All-get_or f gs i rest (omega arith)

count_le_mono : (m n : ℕ) (fees : List ℕ) → m ≤ n → count_le m fees ≤ count_le n fees
unfolding count_le
count_le_mono m n [] h = omega arith
count_le_mono m n (f ∷ fees) h = ground (arith, count_le_mono m n fees)

-- In a sorted list the fees up to a place are at most the one at it.
count_le-get_or :
    (fees : List ℕ) (i : ℕ)
    → IsSorted fees
    → i < length fees
    → i + 1 ≤ count_le (get_or fees i 0) fees
unfolding count_le IsSorted
count_le-get_or [] i h small = absurd (omega arith)
count_le-get_or (f ∷ fees) zero (all, h) small = ground arith
count_le-get_or (f ∷ fees) (suc i) (all, h) small =
    ground (arith, All-get_or f fees i all, count_le-get_or fees i h)

percentile_bounds :
    (fallback : ℕ) (fees : List ℕ)
    → IsSorted fees
    → (fallback ≤ percentile fallback fees)
      × (3 * length fees ≤ 4 * count_le (percentile fallback fees) fees)
unfolding percentile
percentile_bounds fallback [] h = (omega arith, omega arith)
percentile_bounds fallback (f ∷ fees) h =
    let place = length (f ∷ fees) * 3 / 4 in
    let here = count_le-get_or (f ∷ fees) place h (omega arith) in
    elim (Bool-cases (ltb (get_or (f ∷ fees) place 0) fallback)) [
      | inl below ↦
          let above =
            count_le_mono (get_or (f ∷ fees) place 0) fallback (f ∷ fees) (ground arith) in
          rw (below, percentile) (omega arith, omega (arith, above, here))
      | inr reached ↦ rw (reached, percentile) (ground arith, omega (arith, here))
    ]

-- The fee is at least the fallback, and at least three quarters of the positive fees that the
-- connection gives are at most the fee.
pub get_median_priority_fee_bounds :
    (fees : List ℕ) (fallback : ℕ)
    → (fallback ≤ get_median_priority_fee (returns (some fees)) fallback)
      × (3 * length (positive fees)
          ≤ 4 * count_le (get_median_priority_fee (returns (some fees)) fallback) (positive fees))
unfolding get_median_priority_fee
get_median_priority_fee_bounds fees fallback =
    let (least, most) =
      percentile_bounds fallback (sort_fees (positive fees)) (sort_fees-IsSorted (positive fees)) in
    (
      least,
      omega (arith, most, length-sort_fees (positive fees), count_le-sort_fees _ (positive fees)),
    )
