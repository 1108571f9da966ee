-- ===== src/Import/Sniffer/Locality.antt =====
-- How much of a file decides its format.
use ob2_turbo_quant.Common.{ℕ, zero, suc, ◌≤◌, ◌≡◌, refl, List, [], ◌∷◌, take, arith, ap, ◌∙◌}
use ob2_turbo_quant.Import.Sniffer.{sniff_parts, sniff_magic_bytes}

take-take : (m n : ℕ) (bs : List ℕ) → m ≤ n → take m (take n bs) ≡ take m bs
take-take zero n bs h = refl
take-take (suc m) zero bs h = absurd (omega arith)
take-take (suc m) (suc n) [] h = refl
take-take (suc m) (suc n) (b ∷ bs) h = ap (◌∷◌ b) (take-take m n bs (omega arith))

-- The first 256 bytes decide: a beginning of a file, of at least that length, has the format of the
-- whole file.
pub sniff-take :
    (n : ℕ) (bytes : List ℕ) → 256 ≤ n → sniff_magic_bytes (take n bytes) ≡ sniff_magic_bytes bytes
unfolding sniff_magic_bytes
sniff-take zero bytes h = absurd (omega arith)
sniff-take (suc n) [] h = refl
sniff-take (suc n) (b ∷ bs) h =
    let all = b ∷ bs in
    let kept = take (suc n) all in
    ap (λ x. sniff_parts x (take 256 kept) (take 64 kept)) (take-take 16 (suc n) all (omega arith))
    ∙ ap (λ x. sniff_parts (take 16 all) x (take 64 kept)) (take-take 256 (suc n) all (omega arith))
    ∙ ap (λ x. sniff_parts (take 16 all) (take 256 all) x) (take-take 64 (suc n) all (omega arith))
