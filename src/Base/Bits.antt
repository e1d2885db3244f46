-- ===== src/Base/Bits.antt =====
-- When an exclusive or, or an inclusive one, of two numbers is zero.
use Prim.Native.Nat.{
  ℕ, zero, suc, ◌/◌, ◌%◌, ◌≤◌, max, digits, differ, bit_or-bitwise, bit_xor-bitwise,
}
use mathlib.Core.Path.{◌≡◌, refl, ap, sym, ◌∙◌}
use mathlib.Core.Logic.{◌↔◌}
use native.Mathlib.Omega.{arith}
pub use Prim.Native.Nat.{bit_or, bit_xor}

differ_iff : (x y : ℕ) → (differ x y ≡ 0) ↔ (x ≡ y)
differ_iff zero zero = (λ e. refl, λ e. refl)
differ_iff zero (suc y) = (λ e. absurd (omega arith), λ e. absurd (omega arith))
differ_iff (suc x) zero = (λ e. absurd (omega arith), λ e. absurd (omega arith))
differ_iff (suc x) (suc y) =
    let ih = differ_iff x y in (λ e. ap suc (ih.0 e), λ e. ih.1 (omega arith))

abbrev xor_digits : ℕ → ℕ → ℕ → ℕ
xor_digits n a b = digits (λ b. b) differ n a b

xor_digits-eq : (n a b : ℕ) → a ≤ n → xor_digits n a b ≡ 0 → a ≡ b
xor_digits-eq zero zero b p e = sym e
xor_digits-eq zero (suc a) b p e = absurd (omega arith)
xor_digits-eq (suc n) zero b p e = sym e
xor_digits-eq (suc n) (suc a) b p e =
    let halves = xor_digits-eq n (suc a / 2) (b / 2) (omega arith) (omega arith) in
    let ends = (differ_iff (suc a % 2) (b % 2)).0 (omega arith) in omega (arith, halves, ends)

xor_digits_self : (n a : ℕ) → a ≤ n → xor_digits n a a ≡ 0
xor_digits_self zero zero p = refl
xor_digits_self zero (suc a) p = absurd (omega arith)
xor_digits_self (suc n) zero p = refl
xor_digits_self (suc n) (suc a) p = omega (
  arith,
  xor_digits_self n (suc a / 2) (omega arith),
  (differ_iff (suc a % 2) (suc a % 2)).1 refl,
)

pub bit_xor_iff : (a b : ℕ) → (bit_xor a b ≡ 0) ↔ (a ≡ b)
bit_xor_iff a b = (
  λ e. xor_digits-eq a a b (omega arith) (sym (bit_xor-bitwise a b) ∙ e),
  λ e. rw (← e) (bit_xor-bitwise a a ∙ xor_digits_self a a (omega arith)),
)

abbrev or_digits : ℕ → ℕ → ℕ → ℕ
or_digits n a b = digits (λ b. b) max n a b

or_digits_iff : (n a b : ℕ) → a ≤ n → (or_digits n a b ≡ 0) ↔ ((a ≡ 0) × (b ≡ 0))
or_digits_iff zero zero b p = (λ e. (refl, e), λ (_, e). e)
or_digits_iff zero (suc a) b p = absurd (omega arith)
or_digits_iff (suc n) zero b p = (λ e. (refl, e), λ (_, e). e)
or_digits_iff (suc n) (suc a) b p =
    let ih = or_digits_iff n (suc a / 2) (b / 2) (omega arith) in
    (
      λ e. absurd (
          let (high, _) = ih.0 (omega arith) in
          let low : max (suc a % 2) (b % 2) ≡ 0 = omega arith in omega (arith, high, low)),
      λ (e, _). absurd (omega arith),
    )

pub bit_or_iff : (a b : ℕ) → (bit_or a b ≡ 0) ↔ ((a ≡ 0) × (b ≡ 0))
bit_or_iff a b =
    let law = or_digits_iff a a b (omega arith) in
    (λ e. law.0 (sym (bit_or-bitwise a b) ∙ e), λ h. bit_or-bitwise a b ∙ law.1 h)
