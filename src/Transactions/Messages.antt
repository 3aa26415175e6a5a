-- ===== src/Transactions/Messages.antt =====
-- The texts of sdk/src/utils/transaction.ts: which messages are not retried, and the logs in a message.
use kirite.Prelude.{
  Bool, true, false, ◌||◌, List, [], ◌∷◌, Option, none, some, map, ◌==◌, if◌then◌else◌, codes,
}
use kirite.Ceremony.{is_space, skip_spaces}
use kirite.Errors.{includes, to_lower_case}
use kirite.Events.{Line, strip_prefix}

abbrev pub non_retryable : List Line
non_retryable =
    codes "insufficient funds"
    ∷ codes "insufficient lamports"
    ∷ codes "invalid account data"
    ∷ codes "account not found"
    ∷ codes "blockhash not found"
    ∷ codes "instruction error"
    ∷ codes "custom program error"
    ∷ codes "invalid instruction"
    ∷ codes "privilege escalation"
    ∷ []

-- `patterns.some((pattern) => msg.includes(pattern))`
unfoldable pub some_includes : List Line → Line → Bool
some_includes [] msg = false
some_includes (pattern_ ∷ rest) msg = includes pattern_ msg || some_includes rest msg

-- `isNonRetryableError`, on the message.
unfoldable pub is_non_retryable : Line → Bool
unfolding some_includes
is_non_retryable text = some_includes non_retryable (to_lower_case text)

-- `(.*?)\]`, behind what comes before it.
pub until_bracket : Line → Option Line
until_bracket [] = none
until_bracket (c ∷ cs) = elim (c == 93) [
  | true ↦ some []
  | false ↦ elim (until_bracket cs) [ none ↦ none | some group ↦ some (c ∷ group) ]
]

-- `\[`, then the group.
pub open_bracket : Line → Option Line
unfolding until_bracket
open_bracket [] = none
open_bracket (c ∷ cs) = elim (c == 91) [ true ↦ until_bracket cs | false ↦ none ]

-- `/logs:\s*\[(.*?)\]/s` at the start of a text.
pub match_logs_here : Line → Option Line
unfolding open_bracket
match_logs_here text = elim (strip_prefix (codes "logs:") text) [
  | none ↦ none
  | some rest ↦ open_bracket (skip_spaces rest)
]

-- The group of the first match.
pub match_logs : Line → Option Line
unfolding match_logs_here
match_logs [] = match_logs_here []
match_logs (c ∷ cs) = elim (match_logs_here (c ∷ cs)) [
  | none ↦ match_logs cs
  | some group ↦ some group
]

-- The first part of `text.split(",")`, and the others.
pub split_comma : Line → Line × List Line
split_comma [] = ([], [])
split_comma (c ∷ cs) =
    let rest = split_comma cs in if c == 44 then ([], rest.0 ∷ rest.1) else (c ∷ rest.0, rest.1)

-- The text without the spaces at its end.
unfoldable pub trim_end : Line → Line
trim_end [] = []
trim_end (c ∷ cs) = elim (trim_end cs) [
  | [] ↦ if is_space c then [] else c ∷ []
  | d ∷ ds ↦ c ∷ d ∷ ds
]

-- `/"$/`
pub strip_last_quote : Line → Line
strip_last_quote [] = []
strip_last_quote (c ∷ []) = if c == 34 then [] else c ∷ []
strip_last_quote (c ∷ d ∷ ds) = c ∷ strip_last_quote (d ∷ ds)

-- `/^"/`
pub strip_first_quote : Line → Line
strip_first_quote [] = []
strip_first_quote (c ∷ cs) = if c == 34 then cs else c ∷ cs

-- `l.trim().replace(/^"|"$/g, "")`
pub clean : Line → Line
unfolding trim_end strip_first_quote strip_last_quote
clean text = strip_last_quote (strip_first_quote (trim_end (skip_spaces text)))

-- The logs of `wrapSendError`.
pub logs_of : Line → Option (List Line)
unfolding match_logs split_comma clean
logs_of text = elim (match_logs text) [
  | none ↦ none
  | some group ↦ let parts = split_comma group in some (map clean (parts.0 ∷ parts.1))
]
