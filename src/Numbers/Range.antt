-- ===== src/Numbers/Range.antt =====
-- The words of the types of numbers.
use native.Mathlib.Nat.{pow-suc, mod-lt}
use gad.Prelude.{ℕ, zero, suc, ◌%◌, ◌^◌, ◌<◌, arith}
use gad.Numbers.{Object, int, uint, char, bool, nil_value}
use gad.Numbers.Word.{is_negative, extend}

pub pow_pos : (w : ℕ) → 0 < 2 ^ w
pow_pos zero = omega arith
pow_pos (suc w) = omega (arith, pow-suc 2 w, pow_pos w)

pub wrap-lt : (w a : ℕ) → a % 2 ^ w < 2 ^ w
wrap-lt w a = mod-lt a (pow_pos w)

pub extend-lt : (a : ℕ) → a < 2 ^ 32 → extend a < 2 ^ 64
unfolding extend is_negative
extend-lt a h = ground arith

module _ {F D T : Type 0} where
  -- A number, a boolean or nil, whose word has the width of its type.
  unfoldable pub InRange : Object F D T → Type 0
  InRange (int a) = a < 2 ^ 64
  InRange (uint a) = a < 2 ^ 64
  InRange (char a) = a < 2 ^ 32
  InRange (bool b) = Unit
  InRange nil_value = Unit
  InRange _ = ⊥
