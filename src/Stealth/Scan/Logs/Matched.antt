-- ===== src/Stealth/Scan/Logs/Matched.antt =====
-- The text of an announcement is matched, with its three parts.
use kirite.Prelude.{ℕ, ◌≡◌, refl, true, false, Bool, [], ◌∷◌, ◌++◌, some, none, All, codes, ==_iff}
use kirite.Decimal.{is_digit}
use kirite.Events.{Line, strip_prefix}
use kirite.Stealth.Scan.Logs.{
  is_hex, is_alphanumeric, span, behind_group, group, match_parts, match_here, match_announcement,
}

strip_prefix-append : (prefix text : Line) → strip_prefix prefix (prefix ++ text) ≡ some text
unfolding strip_prefix
strip_prefix-append [] text = refl
strip_prefix-append (c ∷ cs) text =
    rw ((==_iff c c).1 refl, strip_prefix) (strip_prefix-append cs text)

-- A text of a class, at least one character of it.
pub record IsWord (class : ℕ → Bool) (word : Line) : Type 0 where
  pub first : ℕ
  pub others : Line
  pub spelled : word ≡ first ∷ others
  pub of_class : All (λ c. class c ≡ true) word

span-word :
    (class : ℕ → Bool) (word : Line) (c : ℕ) (rest : Line)
    → All (λ c. class c ≡ true) word
    → class c ≡ false
    → span class (word ++ (c ∷ rest)) ≡ (word, c ∷ rest)
unfolding span
span-word class [] c rest h other = rw (other, span) refl
span-word class (x ∷ word) c rest (here, h) other =
    rw (here, span, span-word class word c rest h other) refl

group-word :
    (class : ℕ → Bool) (word : Line) (c : ℕ) (behind rest : Line)
    → IsWord class word
    → class c ≡ false
    → group class (c ∷ behind) (word ++ ((c ∷ behind) ++ rest)) ≡ some (word, rest)
unfolding group behind_group
group-word class word c behind rest h other =
    let spanned : span class (word ++ ((c ∷ behind) ++ rest)) ≡ (word, (c ∷ behind) ++ rest) =
      span-word class word c (behind ++ rest) h.of_class other in
    rw spanned (rw h.spelled (rw (strip_prefix-append (c ∷ behind) rest, behind_group) refl))

match_parts-line :
    (start : Line) (c d e : ℕ) (cs ds es ephemeral address tag rest : Line)
    → IsWord is_hex ephemeral
    → IsWord is_alphanumeric address
    → IsWord is_digit tag
    → is_hex c ≡ false
    → is_alphanumeric d ≡ false
    → is_digit e ≡ false
    → match_parts start (c ∷ cs) (d ∷ ds) (e ∷ es) (
        start
        ++ (ephemeral ++ ((c ∷ cs) ++ (address ++ ((d ∷ ds) ++ (tag ++ ((e ∷ es) ++ rest)))))))
      ≡ some (ephemeral, address, tag)
unfolding match_parts
match_parts-line start c d e cs ds es ephemeral address tag rest x y z c' d' e' =
    rw
      (
        strip_prefix-append start _,
        match_parts,
        group-word is_hex ephemeral c cs _ x c',
        group-word is_alphanumeric address d ds _ y d',
        group-word is_digit tag e es rest z e',
      )
      refl

match_here-empty : match_here [] ≡ none
unfolding match_here match_parts strip_prefix
match_here-empty = refl

match_announcement-here :
    (text : Line) (found : Line × Line × Line)
    → match_here text ≡ some found
    → match_announcement text ≡ some found
unfolding match_announcement
match_announcement-here [] found h = cc (match_here-empty, h)
match_announcement-here (c ∷ cs) found h = rw (h, match_announcement) refl

-- The line of an announcement, whose three parts are texts of their classes, is matched with those
-- parts, whatever follows it.
pub match_announcement-line :
    (ephemeral address tag rest : Line)
    → IsWord is_hex ephemeral
    → IsWord is_alphanumeric address
    → IsWord is_digit tag
    → match_announcement (
        codes "Program log: StealthAnnouncement{ephemeral:"
        ++ (ephemeral
            ++ (codes ",address:" ++ (address ++ (codes ",tag:" ++ (tag ++ (codes "}" ++ rest)))))))
      ≡ some (ephemeral, address, tag)
unfolding match_here
match_announcement-line ephemeral address tag rest e a t =
    match_announcement-here _ (ephemeral, address, tag)
      (match_parts-line (codes "Program log: StealthAnnouncement{ephemeral:") 44 44 125
        (codes "address:") (codes "tag:") [] ephemeral address tag rest e a t refl refl refl)
