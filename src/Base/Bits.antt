-- ===== src/Base/Bits.antt =====
-- Exclusive or, digit by digit.
use Prim.Native.Nat.{
  ℕ, zero, suc, ◌+◌, ◌*◌, ◌/◌, ◌%◌, ◌≤◌, ◌<◌, bit_xor, digits, differ, bit_xor-bitwise,
}
use mathlib.Core.Path.{◌≡◌, refl}
use native.Mathlib.Omega.{arith}

abbrev xor_digits : ℕ → ℕ → ℕ → ℕ
xor_digits n a b = digits (λ b. b) differ n a b

xor_fuel : (n m a b : ℕ) → a ≤ n → a ≤ m → xor_digits n a b ≡ xor_digits m a b
xor_fuel zero zero a b p q = refl
xor_fuel zero (suc m) zero b p q = refl
xor_fuel zero (suc m) (suc a) b p q = absurd (omega arith)
xor_fuel (suc n) zero zero b p q = refl
xor_fuel (suc n) zero (suc a) b p q = absurd (omega arith)
xor_fuel (suc n) (suc m) zero b p q = refl
xor_fuel (suc n) (suc m) (suc a) b p q =
    omega (arith, xor_fuel n m (suc a / 2) (b / 2) (omega arith) (omega arith))

differ_sum : (x y : ℕ) → x < 2 → y < 2 → differ x y ≡ (x + y) % 2
differ_sum zero zero p q = refl
differ_sum zero (suc zero) p q = refl
differ_sum (suc zero) zero p q = refl
differ_sum (suc zero) (suc zero) p q = refl
differ_sum (suc (suc x)) y p q = absurd (omega arith)
differ_sum zero (suc (suc y)) p q = absurd (omega arith)
differ_sum (suc zero) (suc (suc y)) p q = absurd (omega arith)

zero-bit_xor : (b : ℕ) → bit_xor 0 b ≡ b
zero-bit_xor b = bit_xor-bitwise 0 b

-- the lowest digit, and the others
pub bit_xor_step : (a b : ℕ) → bit_xor a b ≡ bit_xor (a / 2) (b / 2) * 2 + (a % 2 + b % 2) % 2
bit_xor_step zero b = omega (arith, zero-bit_xor b, zero-bit_xor (b / 2))
bit_xor_step (suc a) b = omega (
  arith,
  bit_xor-bitwise (suc a) b,
  bit_xor-bitwise (suc a / 2) (b / 2),
  xor_fuel a (suc a / 2) (suc a / 2) (b / 2) (omega arith) (omega arith),
  differ_sum (suc a % 2) (b % 2) (omega arith) (omega arith),
)

bit_xor-zero_fuel : (n a : ℕ) → a ≤ n → bit_xor a 0 ≡ a
bit_xor-zero_fuel n zero h = refl
bit_xor-zero_fuel zero (suc a) h = absurd (omega arith)
bit_xor-zero_fuel (suc n) (suc a) h =
    omega (arith, bit_xor_step (suc a) 0, bit_xor-zero_fuel n (suc a / 2) (omega arith))

pub bit_xor-zero : (a : ℕ) → bit_xor a 0 ≡ a
bit_xor-zero a = bit_xor-zero_fuel a a (omega arith)

-- Either number is told by the other and the result.
left_fuel : (n a b c : ℕ) → a ≤ n → b ≤ n → bit_xor a c ≡ bit_xor b c → a ≡ b
left_fuel zero a b c p q h = omega arith
left_fuel (suc n) a b c p q h =
    let high : a / 2 ≡ b / 2 =
      left_fuel n (a / 2) (b / 2) (c / 2) (omega arith) (omega arith)
        (omega (arith, bit_xor_step a c, bit_xor_step b c)) in
    omega (arith, bit_xor_step a c, bit_xor_step b c)

pub bit_xor_left : (a b c : ℕ) → bit_xor a c ≡ bit_xor b c → a ≡ b
bit_xor_left a b c h = left_fuel (a + b) a b c (omega arith) (omega arith) h

right_fuel : (n a b c : ℕ) → a ≤ n → b ≤ n → bit_xor c a ≡ bit_xor c b → a ≡ b
right_fuel zero a b c p q h = omega arith
right_fuel (suc n) a b c p q h =
    let high : a / 2 ≡ b / 2 =
      right_fuel n (a / 2) (b / 2) (c / 2) (omega arith) (omega arith)
        (omega (arith, bit_xor_step c a, bit_xor_step c b)) in
    omega (arith, bit_xor_step c a, bit_xor_step c b)

pub bit_xor_right : (a b c : ℕ) → bit_xor c a ≡ bit_xor c b → a ≡ b
bit_xor_right a b c h = right_fuel (a + b) a b c (omega arith) (omega arith) h

-- 2 to the power of `n`
abbrev pub power : ℕ → ℕ
power zero = 1
power (suc n) = 2 * power n

pub bit_xor_lt : (n a b : ℕ) → a < power n → b < power n → bit_xor a b < power n
bit_xor_lt zero zero b p q = omega (arith, zero-bit_xor b)
bit_xor_lt zero (suc a) b p q = absurd (omega arith)
bit_xor_lt (suc n) a b p q =
    omega (arith, bit_xor_step a b, bit_xor_lt n (a / 2) (b / 2) (omega arith) (omega arith))

-- The highest digit stays.
pub bit_xor_high :
    (n a b : ℕ) → a < power n → power n ≤ b → b < power (suc n) → power n ≤ bit_xor a b
bit_xor_high zero zero b p q r = omega (arith, zero-bit_xor b)
bit_xor_high zero (suc a) b p q r = absurd (omega arith)
bit_xor_high (suc n) a b p q r = omega (
  arith,
  bit_xor_step a b,
  bit_xor_high n (a / 2) (b / 2) (omega arith) (omega arith) (omega arith),
)
