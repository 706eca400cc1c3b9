-- ===== src/Base/Bits.antt =====
-- When the bitwise operations give zero.
use Prim.Native.Nat.{
  ℕ, zero, suc, ◌/◌, ◌%◌, ◌≤◌, max, bit_or, bit_xor, digits, differ, bit_or-bitwise,
  bit_xor-bitwise,
}
use mathlib.Core.Path.{◌≡◌, refl, sym, ap, ◌∙◌}
use native.Mathlib.Omega.{arith}

differ-zero : (a b : ℕ) → differ a b ≡ 0 → a ≡ b
differ-zero zero b h = sym h
differ-zero (suc a) zero h = absurd (omega arith)
differ-zero (suc a) (suc b) h = ap suc (differ-zero a b h)

differ-same : (a : ℕ) → differ a a ≡ 0
differ-same zero = refl
differ-same (suc a) = differ-same a

or_digits : (n a b : ℕ) → a ≤ n → digits (λ b. b) max n a b ≡ 0 → (a ≡ 0) × (b ≡ 0)
or_digits zero a b le h = (omega arith, h)
or_digits (suc n) zero b le h = (refl, h)
or_digits (suc n) (suc a) b le h =
    let (p, q) = or_digits n (suc a / 2) (b / 2) (omega arith) (omega arith) in
    (omega arith, omega arith)

pub bit_or-zero : (a b : ℕ) → bit_or a b ≡ 0 → (a ≡ 0) × (b ≡ 0)
bit_or-zero a b h = or_digits a a b (omega arith) (sym (bit_or-bitwise a b) ∙ h)

xor_digits : (n a b : ℕ) → a ≤ n → digits (λ b. b) differ n a b ≡ 0 → a ≡ b
xor_digits zero a b le h = omega arith
xor_digits (suc n) zero b le h = sym h
xor_digits (suc n) (suc a) b le h =
    let rest = xor_digits n (suc a / 2) (b / 2) (omega arith) (omega arith) in
    let last = differ-zero (suc a % 2) (b % 2) (omega arith) in omega arith

pub bit_xor-zero : (a b : ℕ) → bit_xor a b ≡ 0 → a ≡ b
bit_xor-zero a b h = xor_digits a a b (omega arith) (sym (bit_xor-bitwise a b) ∙ h)

xor_digits-same : (n a : ℕ) → a ≤ n → digits (λ b. b) differ n a a ≡ 0
xor_digits-same zero a le = omega arith
xor_digits-same (suc n) zero le = refl
xor_digits-same (suc n) (suc a) le =
    omega (arith, xor_digits-same n (suc a / 2) (omega arith), differ-same (suc a % 2))

pub bit_xor-same : (a : ℕ) → bit_xor a a ≡ 0
bit_xor-same a = bit_xor-bitwise a a ∙ xor_digits-same a a (omega arith)
