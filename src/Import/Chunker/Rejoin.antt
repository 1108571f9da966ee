-- ===== src/Import/Chunker/Rejoin.antt =====
-- Hard cuts lose nothing: the pieces, each without the overlap it repeats, make up the body.
use ob2_turbo_quant.Common.{
  ℕ, zero, suc, ◌+◌, ◌-◌, ◌≤◌, ◌<◌, min, ◌≡◌, refl, true, some, List, [], ◌∷◌, ◌++◌, arith, ltb,
  leb, Text, length, take, drop, slice, length-drop, take-append-drop, take_all, Bool-cases,
  some_inj, inl, inr, ap, ◌∙◌, sym, append-nil,
}
use mathlib.Core.Option.{none-ne-some}
use ob2_turbo_quant.Import.Chunker.{cut_from, hard_cut}
use ob2_turbo_quant.Import.Chunker.HardCut.{some_cons}

-- The pieces without their first `overlap` characters.
tails : ℕ → List Text → Text
tails overlap [] = []
tails overlap (p ∷ ps) = drop overlap p ++ tails overlap ps

-- The first piece, and what each later one adds to it.
pub rejoin : ℕ → List Text → Text
rejoin overlap [] = []
rejoin overlap (p ∷ ps) = p ++ tails overlap ps

drop_nil : (n : ℕ) → drop {A = ℕ} n [] ≡ []
drop_nil zero = refl
drop_nil (suc n) = refl

take_nil : (n : ℕ) → take {A = ℕ} n [] ≡ []
take_nil zero = refl
take_nil (suc n) = refl

drop-drop : (m n : ℕ) (s : Text) → drop m (drop n s) ≡ drop (n + m) s
drop-drop m zero s = ap (λ k. drop k s) (omega arith)
drop-drop m (suc n) [] = drop_nil m ∙ sym (drop_nil (suc n + m))
drop-drop m (suc n) (c ∷ s) =
    drop-drop m n s ∙ ap (λ k. drop k (c ∷ s)) {x = suc (n + m)} {y = suc n + m} (omega arith)

drop-take : (m n : ℕ) (s : Text) → drop m (take n s) ≡ take (n - m) (drop m s)
drop-take zero n s = ap (λ k. take k s) (omega arith)
drop-take (suc m) zero s = ap (λ k. take k (drop (suc m) s)) {x = 0} {y = 0 - suc m} (omega arith)
drop-take (suc m) (suc n) [] = sym (take_nil (suc n - suc m))
drop-take (suc m) (suc n) (c ∷ s) =
    drop-take m n s ∙ ap (λ k. take k (drop m s)) {x = n - m} {y = suc n - suc m} (omega arith)

-- A slice that ends at `b`, from its `o`-th character on, and the rest from `b`.
slice-rest : (o a b : ℕ) (s : Text) → a + o ≤ b → drop o (slice a b s) ++ drop b s ≡ drop (a + o) s
slice-rest o a b s h = rw (drop-take o (b - a) (drop a s)) (
    rw (drop-drop o a s) (
      rw (ap (λ k. drop k s) {x = b} {y = (a + o) + (b - a - o)} (omega arith)) (
        rw (sym (drop-drop (b - a - o) (a + o) s))
          (take-append-drop (b - a - o) (drop (a + o) s)))))

slice_to_end :
    (o a b : ℕ) (s : Text) → a + o ≤ b → length s ≤ b → drop o (slice a b s) ≡ drop (a + o) s
slice_to_end o a b s h k = rw (drop-take o (b - a) (drop a s)) (
    rw (drop-drop o a s)
      (take_all (b - a - o) (drop (a + o) s) (ground (arith, length-drop (a + o) s))))

-- The pieces from `i` on, each without the overlap.
cut_from-tails :
    (fuel : ℕ) (body : Text) (max_chars overlap i : ℕ) (ps : List Text)
    → overlap < max_chars
    → i + overlap < length body
    → cut_from fuel body max_chars overlap i ≡ some ps
    → tails overlap ps ≡ drop (i + overlap) body
unfolding cut_from tails
cut_from-tails zero body max_chars overlap i ps h k = λ e. absurd (none-ne-some ps e)
cut_from-tails (suc fuel) body max_chars overlap i ps h k =
    let end = min (length body) (i + max_chars) in
    let piece = slice i end body in
    let goes : ltb i (length body) ≡ true = ground arith in
    elim (Bool-cases (leb (length body) end)) [
      | inl last ↦ rw goes (
          rw last (λ e.
            sym (ap (tails overlap) (some_inj (piece ∷ []) ps e))
            ∙ append-nil (drop overlap piece)
            ∙ slice_to_end overlap i end body (omega arith) (ground arith)))
      | inr more ↦ rw goes (
          rw more (λ e.
            let (qs, q, eq) =
              some_cons piece (cut_from fuel body max_chars overlap (end - overlap)) ps e in
            let step : tails overlap qs ≡ drop (end - overlap + overlap) body =
              cut_from-tails fuel body max_chars overlap (end - overlap) qs h (ground arith) q in
            ap (tails overlap) eq
            ∙ ap (◌++◌ (drop overlap piece)) (step ∙ ap (λ k. drop k body) (omega arith))
            ∙ slice-rest overlap i end body (omega arith)))
    ]

-- Where the overlap is below the size of a piece, a hard cut loses no character and adds none but
-- the overlaps: the first piece, followed by every later one without its first `overlap`
-- characters, is the body.
pub hard_cut-rejoin :
    (body : Text) (max_chars overlap : ℕ) (ps : List Text)
    → overlap < max_chars
    → hard_cut body max_chars overlap ≡ some ps
    → rejoin overlap ps ≡ body
unfolding hard_cut cut_from rejoin tails
hard_cut-rejoin [] max_chars overlap ps h = λ e. sym (ap (rejoin overlap) (some_inj [] ps e))
hard_cut-rejoin (c ∷ s) max_chars overlap ps h =
    let body = c ∷ s in
    let end = min (length body) (0 + max_chars) in
    let piece = slice 0 end body in
    let goes : ltb 0 (length body) ≡ true = ground arith in
    let whole : piece ≡ take end body =
      ap (λ k. take k body) {x = end - 0} {y = end} (omega arith) in
    elim (Bool-cases (leb (length body) end)) [
      | inl last ↦ rw goes (
          rw last (λ e.
            sym (ap (rejoin overlap) (some_inj (piece ∷ []) ps e))
            ∙ append-nil piece
            ∙ whole
            ∙ take_all end body (ground arith)))
      | inr more ↦ rw goes (
          rw more (λ e.
            let (qs, q, eq) =
              some_cons piece (cut_from (length body) body max_chars overlap (end - overlap)) ps
                e in
            let step : tails overlap qs ≡ drop (end - overlap + overlap) body =
              cut_from-tails (length body) body max_chars overlap (end - overlap) qs h
                (ground arith) q in
            ap (rejoin overlap) eq
            ∙ ap (◌++◌ piece) (step ∙ ap (λ k. drop k body) (ground arith))
            ∙ ap (λ p. p ++ drop end body) whole
            ∙ take-append-drop end body))
    ]
