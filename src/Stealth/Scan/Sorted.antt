-- ===== src/Stealth/Scan/Sorted.antt =====
-- Sorting the announcements by slot loses none.
use kirite.Prelude.{All, ◌⊎◌, inl, inr, List, [], ◌∷◌, Bool-cases}
use kirite.Stealth.Parsers.{StealthAnnouncement}
use kirite.Stealth.Scan.{ltb_ℤ, insert_by_slot, sort_by_slot}

-- Some element of the list has the property.
abbrev pub Any : {A : Type 0} → (A → Type 0) → List A → Type 0
Any P [] = ⊥
Any P (x ∷ xs) = P x ⊎ Any P xs

module _ {K : Type 0} (P : StealthAnnouncement K → Type 0) where
  insert_by_slot-Any :
      (a : StealthAnnouncement K) (bs : List (StealthAnnouncement K))
      → P a ⊎ Any P bs
      → Any P (insert_by_slot a bs)
  unfolding insert_by_slot
  insert_by_slot-Any a [] h = h
  insert_by_slot-Any a (b ∷ bs) h = elim (Bool-cases (ltb_ℤ b.slot a.slot)) [
    | inr first ↦ rw first h
    | inl later ↦ rw later (elim h [
      | inl here ↦ inr (insert_by_slot-Any a bs (inl here))
      | inr (inl next) ↦ inl next
      | inr (inr rest) ↦ inr (insert_by_slot-Any a bs (inr rest))
    ])
  ]

  pub sort_by_slot-Any : (as_ : List (StealthAnnouncement K)) → Any P as_ → Any P (sort_by_slot as_)
  unfolding sort_by_slot
  sort_by_slot-Any [] h = elim h [ ]
  sort_by_slot-Any (a ∷ as_) (inl here) = insert_by_slot-Any a (sort_by_slot as_) (inl here)
  sort_by_slot-Any (a ∷ as_) (inr rest) =
      insert_by_slot-Any a (sort_by_slot as_) (inr (sort_by_slot-Any as_ rest))

  -- The other way: what holds of all holds after sorting.
  insert_by_slot-All :
      (a : StealthAnnouncement K) (bs : List (StealthAnnouncement K))
      → P a
      → All P bs
      → All P (insert_by_slot a bs)
  unfolding insert_by_slot
  insert_by_slot-All a [] h all = (h, tt)
  insert_by_slot-All a (b ∷ bs) h (first, rest) = elim (Bool-cases (ltb_ℤ b.slot a.slot)) [
    | inr before ↦ rw before (h, (first, rest))
    | inl later ↦ rw later (first, insert_by_slot-All a bs h rest)
  ]

  pub sort_by_slot-All : (as_ : List (StealthAnnouncement K)) → All P as_ → All P (sort_by_slot as_)
  unfolding sort_by_slot
  sort_by_slot-All [] all = tt
  sort_by_slot-All (a ∷ as_) (first, rest) =
      insert_by_slot-All a (sort_by_slot as_) first (sort_by_slot-All as_ rest)
