-- ===== src/Cli/Display.antt =====
-- The formatting of cli/src/utils/display.ts, without its colours. Text is a list of UTF-16 units.
use kirite.Prelude.{
  ℕ, zero, suc, ◌+◌, ◌-◌, ◌*◌, ◌^◌, ◌≤◌, ◌<◌, ◌≡◌, refl, ap, ◌∙◌, sym, List, [], ◌∷◌, ◌++◌, map,
  length, length-append, length-replicate, length-drop, take, drop, replicate, leb, ltb, Bool-cases,
  inl, inr, if◌then◌else◌, codes, arith,
}
use kirite.Bytes.{Bytes}
use kirite.Decimal.{
  IsDigits, IsDigits-append, IsDigits-zeros, IsDigits-take, IsDigits-drop, IsDigits-decimal,
  decimal, decimal_value, decimal_value-decimal, decimal_value-append, decimal_value-zeros,
}
use kirite.Errors.{join}
use kirite.Events.{Line}
use kirite.Stealth.MetaAddress.{to_hex_text}

-- `text.padStart(width, "0")`
pub pad_start : ℕ → Line → Line
pad_start width text = replicate (width - length text) 48 ++ text

-- `formatAmount`
pub format_amount : ℕ → ℕ → Line
unfolding pad_start
format_amount amount decimals =
    let str = decimal amount in
    if leb (length str) decimals
    then (let padded = pad_start (decimals + 1) str in
        take (length padded - decimals) padded ++ (46 ∷ drop (length padded - decimals) padded))
    else take (length str - decimals) str ++ (46 ∷ drop (length str - decimals) str)

-- `shortenPubkey`, on the key's text; `slice(-0)` is the whole text.
pub last_chars : ℕ → Line → Line
last_chars zero str = str
last_chars (suc n) str = drop (length str - suc n) str

pub shorten_pubkey : Line → ℕ → Line
unfolding last_chars
shorten_pubkey str chars =
    if leb (length str) (chars * 2 + 3)
    then str
    else take chars str ++ (codes "..." ++ last_chars chars str)

pub format_hex : Bytes → ℕ → Line
unfolding last_chars
format_hex bytes max_length =
    let hex = to_hex_text bytes in
    if leb (length hex) (max_length * 2)
    then hex
    else take max_length hex ++ (codes "..." ++ last_chars 8 hex)

-- `text.padEnd(width)`
pub pad_end : ℕ → Line → Line
pad_end width text = text ++ replicate (width - length text) 32

-- `row[i] || ""`
pub cell_at : List Line → ℕ → Line
cell_at [] i = []
cell_at (cell ∷ cells) zero = cell
cell_at (cell ∷ cells) (suc i) = cell_at cells i

-- `Math.max(width, ...rows.map((r) => (r[i] || "").length))`
pub widest : ℕ → List (List Line) → ℕ → ℕ
unfolding cell_at
widest i [] width = width
widest i (row ∷ rows) width =
    let rest = widest i rows width in
    if ltb rest (length (cell_at row i)) then length (cell_at row i) else rest

-- The widths of the columns from column `i` on.
pub column_widths : ℕ → List Line → List (List Line) → List ℕ
unfolding widest
column_widths i [] rows = []
column_widths i (h ∷ headers) rows = widest i rows (length h) ∷ column_widths (i + 1) headers rows

-- The cells of a row, each padded to the width of its column; a cell without a column is not padded.
pub padded_cells : List Line → List ℕ → List Line
unfolding pad_end
padded_cells [] widths = []
padded_cells (cell ∷ cells) [] = cell ∷ padded_cells cells []
padded_cells (cell ∷ cells) (w ∷ widths) = pad_end w cell ∷ padded_cells cells widths

pub table_line : List Line → List ℕ → Line
unfolding padded_cells
table_line cells widths = codes "  " ++ join (codes "  ") (padded_cells cells widths)

-- The lines of `printTable`: the header, the rule, the rows and an empty line.
pub print_table : List Line → List (List Line) → List Line
unfolding column_widths table_line
print_table headers rows =
    let widths = column_widths 0 headers rows in
    table_line headers widths
    ∷ ((codes "  " ++ join (codes "  ") (map (λ w. replicate w 0x2500) widths))
        ∷ (map (λ row. table_line row widths) rows ++ [] ∷ []))

take-append-drop : (n : ℕ) (xs : Line) → take n xs ++ drop n xs ≡ xs
take-append-drop zero xs = refl
take-append-drop (suc n) [] = refl
take-append-drop (suc n) (x ∷ xs) = ap (x ∷◌) (take-append-drop n xs)

length-take_le : (n : ℕ) (xs : Line) → n ≤ length xs → length (take n xs) ≡ n
length-take_le zero xs h = refl
length-take_le (suc n) [] h = absurd (omega arith)
length-take_le (suc n) (x ∷ xs) h = ap suc (length-take_le n xs (omega arith))

-- The text is cut so many places before its end.
cut-value :
    (n decimals : ℕ) (str : Line)
    → decimal_value str ≡ n
    → IsDigits str
    → decimals < length str
    → (whole : Line) × (fraction : Line) × (take (length str - decimals) str
          ++ (46 ∷ drop (length str - decimals) str)
        ≡ whole ++ 46 ∷ fraction)
      × (length fraction ≡ decimals)
      × (0 < length whole)
      × IsDigits whole
      × IsDigits fraction
      × (decimal_value whole * 10 ^ decimals + decimal_value fraction ≡ n)
cut-value n decimals str value digits room =
    let cut = length str - decimals in
    let size : length (drop cut str) ≡ decimals = omega (arith, length-drop cut str) in
    (
      take cut str,
      drop cut str,
      refl,
      size,
      omega (arith, length-take_le cut str (omega arith)),
      IsDigits-take cut str digits,
      IsDigits-drop cut str digits,
      ap (λ (t : ℕ). decimal_value (take cut str) * 10 ^ t + decimal_value (drop cut str))
            (sym size)
          ∙ sym (decimal_value-append (take cut str) (drop cut str))
          ∙ ap decimal_value (take-append-drop cut str)
          ∙ value,
    )

-- The text of an amount is a whole part, a point and as many places as it is asked for; the two parts
-- are of digits alone, the whole part has one at least, and they spell the amount in base units.
pub format_amount-value :
    (amount decimals : ℕ)
    → (whole : Line) × (fraction : Line) × (format_amount amount decimals ≡ whole ++ 46 ∷ fraction)
      × (length fraction ≡ decimals)
      × (0 < length whole)
      × IsDigits whole
      × IsDigits fraction
      × (decimal_value whole * 10 ^ decimals + decimal_value fraction ≡ amount)
unfolding format_amount pad_start
format_amount-value amount decimals = elim (Bool-cases (leb (length (decimal amount)) decimals)) [
  | inl short ↦
      let padded = replicate (decimals + 1 - length (decimal amount)) 48 ++ decimal amount in
      let size : decimals < length padded = ground (
        arith,
        length-append (replicate (decimals + 1 - length (decimal amount)) 48) (decimal amount),
        length-replicate {A = ℕ} (decimals + 1 - length (decimal amount)) 48,
      ) in
      let value = decimal_value-zeros (decimals + 1 - length (decimal amount)) (decimal amount) in
      rw short (
        cut-value amount decimals padded (value ∙ decimal_value-decimal amount)
          (IsDigits-append (replicate (decimals + 1 - length (decimal amount)) 48) (decimal amount)
            (IsDigits-zeros (decimals + 1 - length (decimal amount))) (IsDigits-decimal amount))
          size)
  | inr long ↦ rw long (
      cut-value amount decimals (decimal amount) (decimal_value-decimal amount)
        (IsDigits-decimal amount) (ground arith))
]
