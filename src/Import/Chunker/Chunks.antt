-- ===== src/Import/Chunker/Chunks.antt =====
-- The chunks of a document: that there are any, how long they are and how they are numbered.
use ob2_turbo_quant.Common.{
  ℕ, suc, ◌+◌, ◌≤◌, ◌<◌, ◌≡◌, refl, false, some, List, [], ◌∷◌, ◌++◌, arith, leb, leb→le, Text,
  length, is_empty, trim, All, All-append, Bool-cases, Option-cases, some_inj, inl, inr, ap, subst,
  map,
}
use mathlib.Core.Option.{none-ne-some}
use ob2_turbo_quant.Import.Chunker.{
  Chunk, Section, cut_from, hard_cut, cut_section, cut_sections, number_from, effective,
  split_sections, chunk_markdown,
}
use ob2_turbo_quant.Import.Chunker.HardCut.{hard_cut-total, cut_from-short}

cut_section-total :
    (max_chars overlap : ℕ) (sec : Section)
    → overlap < max_chars
    → (ps : List Section) × (cut_section max_chars overlap sec ≡ some ps)
unfolding cut_section
cut_section-total max_chars overlap sec h =
    let (ts, t) = hard_cut-total sec.body max_chars overlap h in
    let named : Text → Section = λ t. record { breadcrumb = sec.breadcrumb; body = t } in
    elim (Bool-cases (leb (length sec.body) max_chars)) [
      | inl fits ↦ (sec ∷ [], rw fits refl)
      | inr long ↦ (map named ts, rw (long, t) refl)
    ]

cut_sections-total :
    (max_chars overlap : ℕ) (secs : List Section)
    → overlap < max_chars
    → (ps : List Section) × (cut_sections max_chars overlap secs ≡ some ps)
unfolding cut_sections
cut_sections-total max_chars overlap [] h = ([], refl)
cut_sections-total max_chars overlap (sec ∷ secs) h =
    let (ps, p) = cut_section-total max_chars overlap sec h in
    let (qs, q) = cut_sections-total max_chars overlap secs h in
    (ps ++ qs, rw (cut_sections, p, q) refl)

abbrev IsShort : ℕ → Section → Type 0
IsShort max_chars sec = length sec.body ≤ max_chars

map-IsShort :
    (max_chars : ℕ) (crumb : Text) (ts : List Text)
    → All (λ t. length t ≤ max_chars) ts
    → All (IsShort max_chars) (map (λ t. record { breadcrumb = crumb; body = t }) ts)
map-IsShort max_chars crumb [] h = tt
map-IsShort max_chars crumb (t ∷ ts) (p, h) = (p, map-IsShort max_chars crumb ts h)

cut_section-IsShort :
    (max_chars overlap : ℕ) (sec : Section) (ps : List Section)
    → cut_section max_chars overlap sec ≡ some ps
    → All (IsShort max_chars) ps
unfolding cut_section hard_cut
cut_section-IsShort max_chars overlap sec ps =
    let fuel = suc (length sec.body) in
    let named : Text → Section = λ t. record { breadcrumb = sec.breadcrumb; body = t } in
    let cut = cut_from fuel sec.body max_chars overlap 0 in
    elim (Bool-cases (leb (length sec.body) max_chars)) [
      | inl fits ↦ rw fits (λ e.
          subst (All (IsShort max_chars)) (some_inj (sec ∷ []) ps e)
            (leb→le (length sec.body) max_chars fits, tt))
      | inr long ↦ elim (Option-cases cut) [
        | inl fails ↦ rw (long, fails) (λ e. absurd (none-ne-some ps e))
        | inr (ts, t) ↦
            rw (long, t)
              (λ e. subst (All (IsShort max_chars)) (some_inj (map named ts) ps e) (
                map-IsShort max_chars sec.breadcrumb ts
                  (cut_from-short fuel sec.body max_chars overlap 0 ts t)))
      ]
    ]

cut_sections-IsShort :
    (max_chars overlap : ℕ) (secs ps : List Section)
    → cut_sections max_chars overlap secs ≡ some ps
    → All (IsShort max_chars) ps
unfolding cut_sections
cut_sections-IsShort max_chars overlap [] ps =
    λ e. subst (All (IsShort max_chars)) (some_inj [] ps e) tt
cut_sections-IsShort max_chars overlap (sec ∷ secs) ps =
    elim (Option-cases (cut_section max_chars overlap sec)) [
      | inl fails ↦ rw (cut_sections, fails) (λ e. absurd (none-ne-some ps e))
      | inr (qs, q) ↦ elim (Option-cases (cut_sections max_chars overlap secs)) [
        | inl fails ↦ rw (cut_sections, q, fails) (λ e. absurd (none-ne-some ps e))
        | inr (rs, r) ↦
            rw (cut_sections, q, r)
              (λ e. subst (All (IsShort max_chars)) (some_inj (qs ++ rs) ps e) (
                All-append (IsShort max_chars) qs rs
                  (cut_section-IsShort max_chars overlap sec qs q)
                  (cut_sections-IsShort max_chars overlap secs rs r)))
      ]
    ]

-- The chunks are numbered from `i` on, know how many they are, and none is longer than the limit.
pub AreChunks : (max_chars total i : ℕ) → List Chunk → Type 0
AreChunks max_chars total i [] = i ≡ total
AreChunks max_chars total i (c ∷ cs) =
    (length c.text ≤ max_chars)
    × (c.chunk_index ≡ i)
    × (c.chunk_total ≡ total)
    × AreChunks max_chars total (suc i) cs

number_from-AreChunks :
    (max_chars total i : ℕ) (ps : List Section)
    → All (IsShort max_chars) ps
    → i + length ps ≡ total
    → AreChunks max_chars total i (number_from total i ps)
unfolding number_from AreChunks
number_from-AreChunks max_chars total i [] h e = omega arith
number_from-AreChunks max_chars total i (p ∷ ps) (k, h) e =
    (k, refl, refl, number_from-AreChunks max_chars total (suc i) ps h (omega arith))

length-number_from : (total i : ℕ) (ps : List Section) → length (number_from total i ps) ≡ length ps
unfolding number_from
length-number_from total i [] = refl
length-number_from total i (p ∷ ps) = ap suc (length-number_from total (suc i) ps)

-- Where the overlap is below the size of a chunk, every document that is not blank is cut into
-- chunks: the loops end, no chunk is longer than the limit, the chunks are numbered from 0 in
-- their order, and each states how many there are.
pub chunk_markdown-AreChunks :
    (md : Text) (max_chars overlap : ℕ)
    → overlap < max_chars
    → is_empty (trim md) ≡ false
    → (cs : List Chunk) × (chunk_markdown md max_chars overlap ≡ some cs)
      × AreChunks max_chars (length cs) 0 cs
unfolding chunk_markdown
chunk_markdown-AreChunks md max_chars overlap h k =
    let secs = effective md (split_sections md) in
    let (ps, p) = cut_sections-total max_chars overlap secs h in
    let cs = number_from (length ps) 0 ps in
    (
      cs,
      rw (k, p) refl,
      rw (length-number_from (length ps) 0 ps) (
          number_from-AreChunks max_chars (length ps) 0 ps
            (cut_sections-IsShort max_chars overlap secs ps p) (omega arith)),
    )

-- With the limits of the source there is always a list of chunks, for blank documents the empty one.
pub chunk_markdown_total :
    (md : Text) (max_chars overlap : ℕ)
    → overlap < max_chars
    → (cs : List Chunk) × (chunk_markdown md max_chars overlap ≡ some cs)
unfolding chunk_markdown
chunk_markdown_total md max_chars overlap h =
    let (ps, p) = cut_sections-total max_chars overlap (effective md (split_sections md)) h in
    elim (Bool-cases (is_empty (trim md))) [
      | inl blank ↦ ([], rw blank refl)
      | inr full ↦ (number_from (length ps) 0 ps, rw (full, p) refl)
    ]
