-- ===== src/Common/Bits.antt =====
-- `|` and `^` on natural numbers, as far as a comparison that accumulates differences needs them.
use Prim.Native.Nat.{
  ℕ, zero, suc, ◌/◌, ◌%◌, ◌≤◌, max, bit_or, bit_xor, digits, differ, bit_or-bitwise,
  bit_xor-bitwise,
}
use mathlib.Core.Path.{◌≡◌, refl, sym, ◌∙◌}
use mathlib.Core.Logic.{◌↔◌}
use native.Mathlib.Omega.{arith}

or_digits_zero : (n a b : ℕ) → a ≤ n → digits (λ x. x) max n a b ≡ 0 → (a ≡ 0) × (b ≡ 0)
or_digits_zero zero a b h e = omega arith
or_digits_zero (suc n) zero b h e = omega arith
or_digits_zero (suc n) (suc a) b h e =
    omega (arith, or_digits_zero n (suc a / 2) (b / 2) (omega arith) (omega arith))

xor_digits_zero : (n a b : ℕ) → a ≤ n → digits (λ x. x) differ n a b ≡ 0 → a ≡ b
xor_digits_zero zero a b h e = omega arith
xor_digits_zero (suc n) zero b h e = omega arith
xor_digits_zero (suc n) (suc a) b h e =
    let halves = xor_digits_zero n (suc a / 2) (b / 2) (omega arith) (omega arith) in
    ground (arith, halves)

differ_self : (a : ℕ) → differ a a ≡ 0
differ_self zero = refl
differ_self (suc a) = differ_self a

xor_digits_self : (n a : ℕ) → a ≤ n → digits (λ x. x) differ n a a ≡ 0
xor_digits_self zero a h = omega arith
xor_digits_self (suc n) zero h = omega arith
xor_digits_self (suc n) (suc a) h =
    omega (arith, xor_digits_self n (suc a / 2) (omega arith), differ_self (suc a % 2))

pub bit_or-eq-zero_iff : (a b : ℕ) → (bit_or a b ≡ 0) ↔ ((a ≡ 0) × (b ≡ 0))
bit_or-eq-zero_iff a b = (
  λ e. or_digits_zero a a b (omega arith) (sym (bit_or-bitwise a b) ∙ e),
  λ (p, q). rw (p, q) (omega arith),
)

pub bit_xor-eq-zero_iff : (a b : ℕ) → (bit_xor a b ≡ 0) ↔ (a ≡ b)
bit_xor-eq-zero_iff a b = (
  λ e. xor_digits_zero a a b (omega arith) (sym (bit_xor-bitwise a b) ∙ e),
  λ e. rw e (bit_xor-bitwise b b ∙ xor_digits_self b b (omega arith)),
)
