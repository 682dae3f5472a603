-- ===== src/Prelude/Int.antt =====
-- Go's `int` where it can be negative, over the native numbers. Its overflow is not modelled.
use gad.Prelude.{ℕ, ◌-◌, Bool, false, leb, if◌then◌else◌}

-- `negsuc n` is -(n + 1).
pub data ℤ : Type 0 where
  pos : ℕ → ℤ
  negsuc : ℕ → ℤ

-- a - b, as an integer.
abbrev pub sub_ℕ : ℕ → ℕ → ℤ
sub_ℕ a b = if leb b a then pos (a - b) else negsuc (b - a - 1)

-- a ≤ b for a number and an integer.
abbrev pub leb_int : ℕ → ℤ → Bool
leb_int a (pos b) = leb a b
leb_int a (negsuc b) = false
