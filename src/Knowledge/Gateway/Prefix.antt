-- ===== src/Knowledge/Gateway/Prefix.antt =====
-- server/routes/gateway.ts: which domain a chat names, `parsePrefix` and `resolveDomain`.
use ob2_turbo_quant.Common.{
  ℕ, Bool, ◌&&◌, ◌||◌, leb, ◌==◌, Option, none, some, List, [], ◌∷◌, if◌then◌else◌, Text, text_eq,
  codes, is_empty, is_space, trim, trim_start, any, not,
}
use ob2_turbo_quant.Knowledge.{ChatMessage}

-- `[a-z0-9]` of a case-insensitive expression.
unfoldable pub is_name_start : ℕ → Bool
is_name_start c = (leb 97 c && leb c 122) || (leb 65 c && leb c 90) || (leb 48 c && leb c 57)

-- `[a-z0-9_-]`
unfoldable pub is_name_char : ℕ → Bool
is_name_char c = is_name_start c || (c == 95) || (c == 45)

-- `[a-z0-9_-]*`, and what follows it.
unfoldable pub span_name : Text → Text × Text
span_name [] = ([], [])
span_name (c ∷ s) =
    let (name, rest) = span_name s in if is_name_char c then (c ∷ name, rest) else ([], c ∷ s)

-- `\s+(.+)$`, the group trimmed. As `.` takes every character, white space before the last one may
-- go to either side, and the trimmed group is the same.
unfoldable pub spaced_rest : Text → Option Text
spaced_rest [] = none
spaced_rest (c ∷ s) = if is_space c && not (is_empty s) then some (trim s) else none

-- `([a-z0-9][a-z0-9_-]*)\s+(.+)$`
unfoldable pub name_and_rest : Text → Option (Text × Text)
name_and_rest [] = none
name_and_rest (c ∷ s) =
    let (name, rest) = span_name s in
    if is_name_start c
    then (elim (spaced_rest rest) [ none ↦ none | some stripped ↦ some (c ∷ name, stripped) ])
    else none

-- `\s+` before a name.
unfoldable pub spaced_name : Text → Option (Text × Text)
spaced_name [] = none
spaced_name (c ∷ s) = if is_space c then name_and_rest (trim_start s) else none

-- `/^\/ob2…/i`
unfoldable pub slash_command : Text → Option (Text × Text)
slash_command (a ∷ o ∷ b ∷ two ∷ s) =
    if (a == 47) && ((o == 111) || (o == 79)) && ((b == 98) || (b == 66)) && (two == 50)
    then spaced_name s
    else none
slash_command _ = none

unfoldable pub at_prefix : Text → Option (Text × Text)
at_prefix [] = none
at_prefix (c ∷ s) = if c == 64 then name_and_rest s else none

-- The domain and the rest of the message.
unfoldable pub parse_prefix : Text → Option (Text × Text)
parse_prefix content = elim (at_prefix content) [
  | some found ↦ some found
  | none ↦ slash_command content
]

-- A line terminator, which `.` does not take.
abbrev is_terminator : ℕ → Bool
is_terminator c = (c == 10) || (c == 13) || (c == 8232) || (c == 8233)

unfoldable pub model_domain : Text → Option Text
model_domain (o ∷ b ∷ two ∷ dash ∷ c ∷ s) =
    if (o == 111) && (b == 98) && (two == 50) && (dash == 45) && not (any is_terminator (c ∷ s))
    then some (c ∷ s)
    else none
model_domain _ = none

-- The loop that looks at the most recent message of the user: the prefix's domain, and the messages
-- without the prefix.
unfoldable pub take_prefix : List ChatMessage → Option (Text × List ChatMessage)
take_prefix [] = none
take_prefix (m ∷ ms) =
    let later = take_prefix ms in
    if any (λ x. text_eq x.role (codes "user")) ms
    then (elim later [ none ↦ none | some (domain, rewritten) ↦ some (domain, m ∷ rewritten) ])
    else if text_eq m.role (codes "user")
    then (elim (parse_prefix m.content) [
      | none ↦ none
      | some (domain, stripped) ↦ some (domain, record m { content = stripped } ∷ ms)
    ])
    else none

unfoldable pub resolve_domain : Text → List ChatMessage → Option Text × List ChatMessage
resolve_domain model messages = elim (take_prefix messages) [
  | some (domain, rewritten) ↦ (some domain, rewritten)
  | none ↦ (model_domain model, messages)
]
