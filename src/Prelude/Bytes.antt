-- ===== src/Prelude/Bytes.antt =====
-- Bytes of a number, as Go's conversion `byte(x)` and shifts make them.
use Prim.Native.Nat.{bit_or, digits, bit_or-bitwise, max}
use native.Mathlib.Nat.{pow-suc}
use gad.Prelude.{ap, ℕ, zero, suc, ◌+◌, ◌*◌, ◌/◌, ◌%◌, ◌^◌, ◌≤◌, ◌<◌, ◌≡◌, refl, arith}

-- byte(x)
abbrev pub byte : ℕ → ℕ
byte x = x % 2 ^ 8

-- byte(x >> 8)
abbrev pub high_byte : ℕ → ℕ
high_byte x = (x / 2 ^ 8) % 2 ^ 8

-- int(lo) | int(hi)<<8
abbrev pub word : ℕ → ℕ → ℕ
word hi lo = bit_or lo (hi * 2 ^ 8)

abbrev or_digits : ℕ → ℕ → ℕ → ℕ
or_digits n a b = digits (λ b. b) max n a b

or_digits_fuel : (n m a b : ℕ) → a ≤ n → a ≤ m → or_digits n a b ≡ or_digits m a b
or_digits_fuel zero zero a b p q = refl
or_digits_fuel zero (suc m) zero b p q = refl
or_digits_fuel zero (suc m) (suc a) b p q = absurd (omega arith)
or_digits_fuel (suc n) zero zero b p q = refl
or_digits_fuel (suc n) zero (suc a) b p q = absurd (omega arith)
or_digits_fuel (suc n) (suc m) zero b p q = refl
or_digits_fuel (suc n) (suc m) (suc a) b p q =
    omega (arith, or_digits_fuel n m (suc a / 2) (b / 2) (omega arith) (omega arith))

pub zero-bit_or : (b : ℕ) → bit_or 0 b ≡ b
zero-bit_or b = bit_or-bitwise 0 b

pub bit_or_step : (a b : ℕ) → bit_or a b ≡ bit_or (a / 2) (b / 2) * 2 + max (a % 2) (b % 2)
bit_or_step zero b = omega (arith, zero-bit_or b, zero-bit_or (b / 2))
bit_or_step (suc a) b = omega (
  arith,
  bit_or-bitwise (suc a) b,
  bit_or-bitwise (suc a / 2) (b / 2),
  or_digits_fuel a (suc a / 2) (suc a / 2) (b / 2) (omega arith) (omega arith),
)

pub bit_or-add : (k lo hi : ℕ) → lo < 2 ^ k → bit_or lo (hi * 2 ^ k) ≡ lo + hi * 2 ^ k
bit_or-add zero lo hi h = omega (arith, zero-bit_or (hi * 2 ^ 0), pin)
  where
    pin : bit_or lo (hi * 2 ^ 0) ≡ bit_or 0 (hi * 2 ^ 0)
    pin = ap (λ n. bit_or n (hi * 2 ^ 0)) (omega arith)
bit_or-add (suc k) lo hi h = omega (
  arith,
  pow-suc 2 k,
  double,
  bit_or_step lo (hi * 2 ^ suc k),
  bit_or-add k (lo / 2) hi (omega (arith, pow-suc 2 k)),
  pin,
)
  where
    double : hi * 2 ^ suc k ≡ 2 * (hi * 2 ^ k)
    double = omega (arith, ap (λ t. hi * t) (pow-suc 2 k))

    pin : bit_or (lo / 2) (hi * 2 ^ suc k / 2) ≡ bit_or (lo / 2) (hi * 2 ^ k)
    pin = ap (bit_or (lo / 2)) (omega (arith, double))

-- The two bytes that are written for an operand read back as the operand modulo 2^16.
pub word-high_byte : (x : ℕ) → word (high_byte x) (byte x) ≡ x % 2 ^ 16
word-high_byte x = omega (arith, bit_or-add 8 (byte x) (high_byte x))
