-- ===== src/Auth/TimingSafe.antt =====
-- The constant-time comparison of llamacpp-manager/auth.ts, which server/auth/sessions.ts and
-- server/auth/file_signing.ts repeat word for word.
use ob2_turbo_quant.Common.{
  ℕ, ◌≡◌, refl, ◌↔◌, Bool, true, false, [], ◌∷◌, bit_or, bit_xor, arith, ◌==◌, length,
  if◌then◌else◌, Text, bit_or-eq-zero_iff, bit_xor-eq-zero_iff,
}

-- `for (i = 0; i < a.length; i++) diff |= a.charCodeAt(i) ^ b.charCodeAt(i)`. Past the end of `b`
-- the code is NaN, which `^` takes for 0.
unfoldable pub diff_from : ℕ → Text → Text → ℕ
diff_from diff [] b = diff
diff_from diff (x ∷ a) [] = diff_from (bit_or diff (bit_xor x 0)) a []
diff_from diff (x ∷ a) (y ∷ b) = diff_from (bit_or diff (bit_xor x y)) a b

unfoldable pub timing_safe_equal : Text → Text → Bool
timing_safe_equal a b = if length a == length b then diff_from 0 a b == 0 else false

-- A difference once seen stays.
diff_from-zero :
    (diff : ℕ) (a b : Text) → length a ≡ length b → diff_from diff a b ≡ 0 → (diff ≡ 0) × (a ≡ b)
unfolding diff_from
diff_from-zero diff [] [] l e = (e, refl)
diff_from-zero diff [] (y ∷ b) l e = absurd (grind arith)
diff_from-zero diff (x ∷ a) [] l e = absurd (grind arith)
diff_from-zero diff (x ∷ a) (y ∷ b) l e =
    let (seen, rest) = diff_from-zero (bit_or diff (bit_xor x y)) a b (omega arith) e in
    let (before, here) = (bit_or-eq-zero_iff diff (bit_xor x y)).0 seen in
    (before, ground (arith, bit_xor-eq-zero_iff x y))

diff_from_self : (a : Text) → diff_from 0 a a ≡ 0
unfolding diff_from
diff_from_self [] = refl
diff_from_self (x ∷ a) =
    let here : bit_or 0 (bit_xor x x) ≡ 0 =
      (bit_or-eq-zero_iff 0 (bit_xor x x)).1 (refl, (bit_xor-eq-zero_iff x x).1 refl) in
    rw here (diff_from_self a)

-- The comparison accepts exactly equal texts.
pub timing_safe_equal_iff : (a b : Text) → (timing_safe_equal a b ≡ true) ↔ (a ≡ b)
unfolding timing_safe_equal
timing_safe_equal_iff a b = (
  λ h. (diff_from-zero 0 a b (ground arith) (ground arith)).1,
  λ e. rw e (ground (arith, diff_from_self b)),
)
