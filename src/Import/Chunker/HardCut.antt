-- ===== src/Import/Chunker/HardCut.antt =====
-- Hard cuts: pieces of bounded length that make up the body, and when the cutting ends.
use ob2_turbo_quant.Common.{
  ℕ, zero, suc, ◌+◌, ◌-◌, ◌≤◌, ◌<◌, min, ◌≡◌, refl, Option, none, some, List, [], ◌∷◌, arith, ltb,
  leb, Text, length, drop, slice, length-take, All, Bool-cases, some_inj, subst, inl, inr, sym,
}
use mathlib.Core.Option
use mathlib.Core.Option.{none-ne-some}
use ob2_turbo_quant.Import.Chunker.{cut_from, hard_cut}

-- With an overlap below the size of a piece the loop ends, within as many rounds as the body has
-- characters left.
cut_from-total :
    (fuel : ℕ) (body : Text) (max_chars overlap i : ℕ)
    → overlap < max_chars
    → length body - i < fuel
    → (ps : List Text) × (cut_from fuel body max_chars overlap i ≡ some ps)
unfolding cut_from
cut_from-total zero body max_chars overlap i h k = absurd (omega arith)
cut_from-total (suc fuel) body max_chars overlap i h k =
    let end = min (length body) (i + max_chars) in
    elim (Bool-cases (ltb i (length body))) [
      | inl going ↦ elim (Bool-cases (leb (length body) end)) [
        | inl last ↦ (slice i end body ∷ [], rw going (rw last))
        | inr more ↦
            let (ps, e) =
              cut_from-total fuel body max_chars overlap (end - overlap) h (ground arith) in
            (slice i end body ∷ ps, rw going (rw (more, e)))
      ]
      | inr over ↦ ([], rw over)
    ]

pub hard_cut-total :
    (body : Text) (max_chars overlap : ℕ)
    → overlap < max_chars
    → (ps : List Text) × (hard_cut body max_chars overlap ≡ some ps)
unfolding hard_cut
hard_cut-total body max_chars overlap h =
    cut_from-total (suc (length body)) body max_chars overlap 0 h (omega arith)

-- With an overlap of the size of a piece or more, a body that is longer than a piece is cut forever.
cut_from_stuck :
    (fuel : ℕ) (body : Text) (max_chars overlap i : ℕ)
    → max_chars ≤ overlap
    → i + max_chars < length body
    → cut_from fuel body max_chars overlap i ≡ none
unfolding cut_from
cut_from_stuck zero body max_chars overlap i h k = refl
cut_from_stuck (suc fuel) body max_chars overlap i h k = ground (
  arith,
  cut_from_stuck fuel body max_chars overlap (min (length body) (i + max_chars) - overlap) h,
)

-- With an overlap of the size of a piece or more, the cut of a body that is longer than a piece
-- has no result, whatever number of rounds the loop is given.
pub hard_cut-endless :
    (fuel : ℕ) (body : Text) (max_chars overlap : ℕ)
    → max_chars ≤ overlap
    → max_chars < length body
    → cut_from fuel body max_chars overlap 0 ≡ none
hard_cut-endless fuel body max_chars overlap h k =
    cut_from_stuck fuel body max_chars overlap 0 h (omega arith)

pub some_cons :
    (p : Text) (o : Option (List Text)) (ps : List Text)
    → Option.map (◌∷◌ p) o ≡ some ps
    → (qs : List Text) × (o ≡ some qs) × (ps ≡ p ∷ qs)
some_cons p none ps e = absurd (none-ne-some ps e)
some_cons p (some qs) ps e = (qs, refl, sym (some_inj (p ∷ qs) ps e))

slice_short : (i n : ℕ) (s : Text) → length (slice i (min (length s) (i + n)) s) ≤ n
slice_short i n s = ground (arith, length-take (min (length s) (i + n) - i) (drop i s))

-- No piece is longer than the limit.
pub cut_from-short :
    (fuel : ℕ) (body : Text) (max_chars overlap i : ℕ) (ps : List Text)
    → cut_from fuel body max_chars overlap i ≡ some ps
    → All (λ p. length p ≤ max_chars) ps
unfolding cut_from
cut_from-short zero body max_chars overlap i ps = λ e. absurd (none-ne-some ps e)
cut_from-short (suc fuel) body max_chars overlap i ps =
    let short : List Text → Type 0 = All (λ p. length p ≤ max_chars) in
    let end = min (length body) (i + max_chars) in
    elim (Bool-cases (ltb i (length body))) [
      | inl going ↦ elim (Bool-cases (leb (length body) end)) [
        | inl last ↦ rw going (
            rw last (λ e.
              subst short (some_inj (slice i end body ∷ []) ps e)
                (slice_short i max_chars body, tt)))
        | inr more ↦ rw going (
            rw more (λ e.
              let (qs, q, eq) =
                some_cons (slice i end body) (cut_from fuel body max_chars overlap (end - overlap))
                  ps e in
              subst short (sym eq) (
                slice_short i max_chars body,
                cut_from-short fuel body max_chars overlap (end - overlap) qs q,
              )))
      ]
      | inr over ↦ rw over (λ e. subst short (some_inj [] ps e) tt)
    ]
