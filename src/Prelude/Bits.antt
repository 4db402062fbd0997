-- ===== src/Prelude/Bits.antt =====
-- Binary digits: laws of the native `bit_or` and `bit_xor`, from the digits that they stand for.
use Prim.Native.Nat.{
  ℕ, zero, suc, ◌+◌, ◌*◌, ◌/◌, ◌%◌, ◌≤◌, ◌<◌, max, bit_or, bit_xor, digits, differ, bit_or-bitwise,
  bit_xor-bitwise,
}
use mathlib.Core.Path.{◌≡◌, refl}
use native.Mathlib.Omega.{arith}

abbrev keep_digits : (ℕ → ℕ → ℕ) → ℕ → ℕ → ℕ → ℕ
keep_digits f n a b = digits (λ b. b) f n a b

module _ (f : ℕ → ℕ → ℕ) where
  -- As many digits as there are in the first number are enough.
  keep_digits_fuel : (n m a b : ℕ) → a ≤ n → a ≤ m → keep_digits f n a b ≡ keep_digits f m a b
  keep_digits_fuel zero zero a b p q = refl
  keep_digits_fuel zero (suc m) zero b p q = refl
  keep_digits_fuel zero (suc m) (suc a) b p q = absurd (omega arith)
  keep_digits_fuel (suc n) zero zero b p q = refl
  keep_digits_fuel (suc n) zero (suc a) b p q = absurd (omega arith)
  keep_digits_fuel (suc n) (suc m) zero b p q = refl
  keep_digits_fuel (suc n) (suc m) (suc a) b p q =
      omega (arith, keep_digits_fuel n m (suc a / 2) (b / 2) (omega arith) (omega arith))

bit_or_step :
    (a b : ℕ) → bit_or (suc a) b ≡ bit_or (suc a / 2) (b / 2) * 2 + max (suc a % 2) (b % 2)
bit_or_step a b = omega (
  arith,
  bit_or-bitwise (suc a) b,
  bit_or-bitwise (suc a / 2) (b / 2),
  keep_digits_fuel max a (suc a / 2) (suc a / 2) (b / 2) (omega arith) (omega arith),
)

bit_xor_step :
    (a b : ℕ) → bit_xor (suc a) b ≡ bit_xor (suc a / 2) (b / 2) * 2 + differ (suc a % 2) (b % 2)
bit_xor_step a b = omega (
  arith,
  bit_xor-bitwise (suc a) b,
  bit_xor-bitwise (suc a / 2) (b / 2),
  keep_digits_fuel differ a (suc a / 2) (suc a / 2) (b / 2) (omega arith) (omega arith),
)

differ-digits : (x y : ℕ) → x < 2 → y < 2 → differ x y ≡ 0 → x ≡ y
differ-digits zero y hx hy h = omega arith
differ-digits (suc zero) zero hx hy h = absurd (omega arith)
differ-digits (suc zero) (suc zero) hx hy h = refl
differ-digits (suc zero) (suc (suc y)) hx hy h = absurd (omega arith)
differ-digits (suc (suc x)) y hx hy h = absurd (omega arith)

bit_xor_fuel : (n a b : ℕ) → a ≤ n → bit_xor a b ≡ 0 → a ≡ b
bit_xor_fuel n zero b p h = omega (arith, bit_xor-bitwise 0 b)
bit_xor_fuel zero (suc a) b p h = absurd (omega arith)
bit_xor_fuel (suc n) (suc a) b p h =
    let step = bit_xor_step a b in
    let high = bit_xor_fuel n (suc a / 2) (b / 2) (omega arith) (omega arith) in
    let low = differ-digits (suc a % 2) (b % 2) (omega arith) (omega arith) (omega arith) in
    omega arith

pub bit_xor-zero : (a b : ℕ) → bit_xor a b ≡ 0 → a ≡ b
bit_xor-zero a b h = bit_xor_fuel a a b (omega arith) h

pub zero-bit_or : (b : ℕ) → bit_or 0 b ≡ b
zero-bit_or b = bit_or-bitwise 0 b

bit_or_fuel : (n a b : ℕ) → a ≤ n → bit_or a b ≡ 0 → (a ≡ 0) × (b ≡ 0)
bit_or_fuel n zero b p h = (refl, omega (arith, zero-bit_or b))
bit_or_fuel zero (suc a) b p h = absurd (omega arith)
bit_or_fuel (suc n) (suc a) b p h =
    let step = bit_or_step a b in
    let (x, y) = bit_or_fuel n (suc a / 2) (b / 2) (omega arith) (omega arith) in
    absurd (omega arith)

pub bit_or-zero : (a b : ℕ) → bit_or a b ≡ 0 → (a ≡ 0) × (b ≡ 0)
bit_or-zero a b h = bit_or_fuel a a b (omega arith) h

differ_self : (x : ℕ) → differ x x ≡ 0
differ_self zero = refl
differ_self (suc x) = differ_self x

bit_xor_self_fuel : (n a : ℕ) → a ≤ n → bit_xor a a ≡ 0
bit_xor_self_fuel n zero p = bit_xor-bitwise 0 0
bit_xor_self_fuel zero (suc a) p = absurd (omega arith)
bit_xor_self_fuel (suc n) (suc a) p = omega (
  arith,
  bit_xor_step a (suc a),
  bit_xor_self_fuel n (suc a / 2) (omega arith),
  differ_self (suc a % 2),
)

pub bit_xor_self : (a : ℕ) → bit_xor a a ≡ 0
bit_xor_self a = bit_xor_self_fuel a a (omega arith)
