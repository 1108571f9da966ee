-- ===== src/Import/Chunker.antt =====
-- server/import/chunker.ts. A length counts UTF-16 code units, as `length` does there.
pub mod HardCut
pub mod Rejoin
pub mod Chunks
use ob2_turbo_quant.Common.{
  ℕ, zero, suc, ◌+◌, ◌-◌, min, Bool, true, false, not, ◌&&◌, ◌||◌, Option, none, some, List, [],
  ◌∷◌, ◌++◌, ltb, leb, ◌==◌, if◌then◌else◌, Text, codes, is_empty, trim, length, slice, drop,
  starts_with, map,
}
use mathlib.Core.Option

pub record Chunk : Type 0 where
  pub text : Text
  pub breadcrumb : Text
  pub chunk_index : ℕ
  pub chunk_total : ℕ

pub record Section : Type 0 where
  pub breadcrumb : Text
  pub body : Text

-- A line that ends in "\r\n" loses both.
strip_cr : Text → Text
strip_cr [] = []
strip_cr (c ∷ []) = if c == 13 then [] else c ∷ []
strip_cr (c ∷ d ∷ s) = c ∷ strip_cr (d ∷ s)

-- `md.split(/\r?\n/)`, with the line read so far.
split_lines : Text → Text → List Text
split_lines line [] = line ∷ []
split_lines line (c ∷ s) =
    let closed = strip_cr line ∷ split_lines [] s in
    let longer = split_lines (line ++ (c ∷ [])) s in if c == 10 then closed else longer

-- The characters that `.` does not match.
no_terminator : Text → Bool
no_terminator [] = true
no_terminator (c ∷ s) =
    not ((c == 10) || (c == 13) || (c == 8232) || (c == 8233)) && no_terminator s

-- `line.match(/^# (.+)$/)?.[1].trim()`, for the prefix "# " or "## ".
heading : Text → Text → Option Text
heading prefix line =
    let rest = drop (length prefix) line in
    if starts_with prefix line && not (is_empty rest) && no_terminator rest
    then some (trim rest)
    else none

-- The variables of the walk over the lines.
pub record Walk : Type 0 where
  pub sections : List Section
  pub h1 : Text
  pub h2 : Text
  pub buf : List Text

-- `buf.join("\n")`
join_lines : List Text → Text
join_lines [] = []
join_lines (l ∷ []) = l
join_lines (l ∷ m ∷ ls) = l ++ (10 ∷ join_lines (m ∷ ls))

breadcrumb_of : Text → Text → Text
breadcrumb_of h1 h2 =
    if is_empty h2 then h1 else if is_empty h1 then h2 else h1 ++ (codes " > " ++ h2)

flush : Walk → Walk
flush w =
    let body = trim (join_lines w.buf) in
    let section : Section = record { breadcrumb = breadcrumb_of w.h1 w.h2; body = body } in
    record w {
      sections = if is_empty body then w.sections else w.sections ++ (section ∷ []);
      buf = [];
    }

-- One round of the loop over the lines.
read_line : Walk → Text → Walk
read_line w line = elim (heading (codes "# ") line) [
  | some title ↦ record (flush w) { h1 = title; h2 = [] }
  | none ↦ elim (heading (codes "## ") line) [
    | some title ↦ record (flush w) { h2 = title }
    | none ↦ record w { buf = w.buf ++ (line ∷ []) }
  ]
]

read_lines : Walk → List Text → Walk
read_lines w [] = w
read_lines w (l ∷ ls) = read_lines (read_line w l) ls

pub split_sections : Text → List Section
split_sections md =
    (flush (
      read_lines (record { sections = []; h1 = []; h2 = []; buf = [] })
        (split_lines [] md))).sections

-- The loop of `hardCut` from `i`, on fuel: `none` where it runs out. `Math.max(0, end - overlap)` is
-- the subtraction of ℕ.
unfoldable pub cut_from : ℕ → Text → ℕ → ℕ → ℕ → Option (List Text)
cut_from zero body max_chars overlap i = none
cut_from (suc fuel) body max_chars overlap i =
    let end = min (length body) (i + max_chars) in
    let piece = slice i end body in
    let rest = Option.map (◌∷◌ piece) (cut_from fuel body max_chars overlap (end - overlap)) in
    if ltb i (length body)
    then (if leb (length body) end then some (piece ∷ []) else rest)
    else some []

-- With an overlap below the size of a piece, each round starts further on.
unfoldable pub hard_cut : Text → ℕ → ℕ → Option (List Text)
hard_cut body max_chars overlap = cut_from (suc (length body)) body max_chars overlap 0

-- `none` where a cut does not end.
cut_section : ℕ → ℕ → Section → Option (List Section)
cut_section max_chars overlap sec =
    if leb (length sec.body) max_chars
    then some (sec ∷ [])
    else Option.map (map (λ t. record { breadcrumb = sec.breadcrumb; body = t }))
        (hard_cut sec.body max_chars overlap)

-- The pieces of all sections in order.
cut_sections : ℕ → ℕ → List Section → Option (List Section)
cut_sections max_chars overlap [] = some []
cut_sections max_chars overlap (sec ∷ secs) = elim (cut_section max_chars overlap sec) [
  | none ↦ none
  | some ps ↦ Option.map (◌++◌ ps) (cut_sections max_chars overlap secs)
]

number_from : ℕ → ℕ → List Section → List Chunk
number_from total i [] = []
number_from total i (p ∷ ps) =
    record { text = p.body; breadcrumb = p.breadcrumb; chunk_index = i; chunk_total = total }
    ∷ number_from total (suc i) ps

-- Where no section was found, the whole text is one.
effective : Text → List Section → List Section
effective md [] = record { breadcrumb = []; body = trim md } ∷ []
effective md (sec ∷ secs) = sec ∷ secs

pub chunk_markdown : Text → ℕ → ℕ → Option (List Chunk)
chunk_markdown md max_chars overlap =
    if is_empty (trim md)
    then some []
    else Option.map (λ ps. number_from (length ps) 0 ps)
        (cut_sections max_chars overlap (effective md (split_sections md)))

abbrev pub default_max_chars : ℕ
default_max_chars = 1500

abbrev pub default_overlap : ℕ
default_overlap = 200
