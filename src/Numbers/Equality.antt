-- ===== src/Numbers/Equality.antt =====
-- `Equal` and `IsFalsy` of the numbers, of `Bool` and of nil.
use gad.Prelude.{ℕ, Bool, true, false, not, ◌&&◌, ◌||◌, ◌==◌, if◌then◌else◌}
use gad.Numbers.{Object, Others, int, uint, char, bool, nil_value, float, decimal}
use gad.Numbers.Word.{extend}

-- A word against a boolean.
unfoldable pub equal_bool : ℕ → Bool → Bool
equal_bool o v = if v then o == 1 else o == 0

module _ {F D T : Type 0} where
  module _ (others : Others F D T) where
    unfoldable pub int_equal : ℕ → Object F D T → Bool
    int_equal o (int v) = o == v
    int_equal o (uint v) = o == v
    int_equal o (float v) = others.float_equal (int o) v
    int_equal o (decimal v) = others.decimal_equal (int o) v
    int_equal o (char v) = o == extend v
    int_equal o (bool v) = equal_bool o v
    int_equal o _ = false

    unfoldable pub uint_equal : ℕ → Object F D T → Bool
    uint_equal o (uint v) = o == v
    uint_equal o (int v) = o == v
    uint_equal o (float v) = others.float_equal (uint o) v
    uint_equal o (decimal v) = others.decimal_equal (uint o) v
    uint_equal o (char v) = o == extend v
    uint_equal o (bool v) = equal_bool o v
    uint_equal o _ = false

    unfoldable pub char_equal : ℕ → Object F D T → Bool
    char_equal o (char v) = o == v
    char_equal o (int v) = extend o == v
    char_equal o (uint v) = extend o == v
    char_equal o (float v) = others.float_equal (char o) v
    char_equal o (bool v) = equal_bool o v
    char_equal o _ = false

    unfoldable pub bool_equal : Bool → Object F D T → Bool
    bool_equal o (bool v) = if o then v else not v
    bool_equal o (int v) = (o && (v == 1)) || (not o && (v == 0))
    bool_equal o (uint v) = (o && (v == 1)) || (not o && (v == 0))
    bool_equal o _ = false

    unfoldable pub nil_equal : Object F D T → Bool
    nil_equal nil_value = true
    nil_equal _ = false

    unfoldable pub equal : Object F D T → Object F D T → Bool
    equal (int o) right = int_equal o right
    equal (uint o) right = uint_equal o right
    equal (char o) right = char_equal o right
    equal (bool o) right = bool_equal o right
    equal nil_value right = nil_equal right
    equal left right = others.left_equal left right

    unfoldable pub is_falsy : Object F D T → Bool
    is_falsy (int o) = o == 0
    is_falsy (uint o) = o == 0
    is_falsy (char o) = o == 0
    is_falsy (bool o) = not o
    is_falsy nil_value = true
    is_falsy left = others.left_falsy left
