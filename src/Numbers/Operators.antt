-- ===== src/Numbers/Operators.antt =====
-- `BinaryOp` of `Int`, `Uint`, `Char`, `Bool` and nil.
use Prim.Native.String.{◌++◌ as ◌<>◌}
use gad.Prelude.{ℕ, Bool, true, false, String, ◌&&◌, ◌||◌, Option, none, some, ◌==◌, if◌then◌else◌}
use gad.Token.{Token}
use gad.Numbers.{
  Object, Kind, Outcome, Others, int, uint, char, bool, nil_value, float, decimal, str, other,
  int_type, uint_type, char_type, bool_type, nil_type, float_type, decimal_type, str_type,
  other_type, done, zero_division, operand_type, panicked,
}
use gad.Numbers.Word.{
  add_word, sub_word, mul_word, quo_word, rem_word, bitwise, and_not_bits, xor_bits, shl_word,
  shr_word, less_word, less_eq_word, is_negative, extend, to_rune,
}

-- One of Go's types of integers, and how its values become objects.
pub record Integer (O : Type 0) : Type 0 where
  pub width : ℕ
  pub signed : Bool
  pub object : ℕ → O

abbrev pub bit : Bool → ℕ
bit true = 1
bit false = 0

module _ {F D T : Type 0} where
  unfoldable pub kind_of : Object F D T → Kind F D T
  kind_of (int a) = int_type
  kind_of (uint a) = uint_type
  kind_of (char a) = char_type
  kind_of (bool a) = bool_type
  kind_of nil_value = nil_type
  kind_of (float a) = float_type
  kind_of (decimal a) = decimal_type
  kind_of (str a) = str_type
  kind_of (other a) = other_type a

  abbrev pub int_kind : Integer (Object F D T)
  int_kind = record { width = 64; signed = true; object = int }

  abbrev pub uint_kind : Integer (Object F D T)
  uint_kind = record { width = 64; signed = false; object = uint }

  abbrev pub char_kind : Integer (Object F D T)
  char_kind = record { width = 32; signed = true; object = char }

  -- Go's `a / b` behind the test for 0, and `a % b`, which has none.
  unfoldable pub divide : Integer (Object F D T) → ℕ → ℕ → Outcome F D T
  divide k a b = if b == 0 then zero_division else done (k.object (quo_word k.width k.signed a b))

  unfoldable pub remainder : Integer (Object F D T) → ℕ → ℕ → Outcome F D T
  remainder k a b = if b == 0 then panicked else done (k.object (rem_word k.width k.signed a b))

  -- A shift by a negative count panics.
  unfoldable pub shift_by : Integer (Object F D T) → (ℕ → ℕ → ℕ) → ℕ → ℕ → Outcome F D T
  shift_by k f a n = if k.signed && is_negative k.width n then panicked else done (k.object (f a n))

  -- The comparisons; `none` for another token.
  unfoldable pub comparison : Integer (Object F D T) → Token → ℕ → ℕ → Option (Outcome F D T)
  comparison k Token.less a b = some (done (bool (less_word k.width k.signed a b)))
  comparison k Token.less_eq a b = some (done (bool (less_eq_word k.width k.signed a b)))
  comparison k Token.greater a b = some (done (bool (less_word k.width k.signed b a)))
  comparison k Token.greater_eq a b = some (done (bool (less_eq_word k.width k.signed b a)))
  comparison k _ a b = none

  -- The switch on the token for two integers of one type.
  unfoldable pub arithmetic : Integer (Object F D T) → Token → ℕ → ℕ → Option (Outcome F D T)
  unfolding comparison
  arithmetic k Token.add a b = some (done (k.object (add_word k.width a b)))
  arithmetic k Token.sub a b = some (done (k.object (sub_word k.width a b)))
  arithmetic k Token.mul a b = some (done (k.object (mul_word k.width a b)))
  arithmetic k Token.quo a b = some (divide k a b)
  arithmetic k Token.rem a b = some (remainder k a b)
  arithmetic k Token.and a b = some (done (k.object (bitwise (◌&&◌) k.width a b)))
  arithmetic k Token.or a b = some (done (k.object (bitwise (◌||◌) k.width a b)))
  arithmetic k Token.xor a b = some (done (k.object (bitwise xor_bits k.width a b)))
  arithmetic k Token.and_not a b = some (done (k.object (bitwise and_not_bits k.width a b)))
  arithmetic k Token.shl a b = some (shift_by k (shl_word k.width) a b)
  arithmetic k Token.shr a b = some (shift_by k (shr_word k.width k.signed) a b)
  arithmetic k tok a b = comparison k tok a b

  -- The switch where one operand is a rune: `c` and `d` as runes, `a` and `b` as integers of `k`.
  unfoldable pub with_rune : Integer (Object F D T) → Token → ℕ → ℕ → ℕ → ℕ → Option (Outcome F D T)
  unfolding comparison
  with_rune k Token.add c d a b = some (done (char (add_word 32 c d)))
  with_rune k Token.sub c d a b = some (done (char (sub_word 32 c d)))
  with_rune k tok c d a b = comparison k tok a b

  -- Any number is above nil.
  unfoldable pub beside_nil : Token → Option (Outcome F D T)
  beside_nil Token.less = some (done (bool false))
  beside_nil Token.less_eq = some (done (bool false))
  beside_nil Token.greater = some (done (bool true))
  beside_nil Token.greater_eq = some (done (bool true))
  beside_nil _ = none

  -- The error behind the switches.
  abbrev pub or_error : Token → Kind F D T → Kind F D T → Option (Outcome F D T) → Outcome F D T
  or_error tok left right none = operand_type tok left right
  or_error tok left right (some r) = r

  module _ (others : Others F D T) where
    unfoldable pub int_op : Token → ℕ → Object F D T → Outcome F D T
    int_op tok o (int v) = or_error tok int_type int_type (arithmetic int_kind tok o v)
    int_op tok o (uint v) = or_error tok uint_type uint_type (arithmetic uint_kind tok o v)
    int_op tok o (float v) = others.float_op tok (int o) v
    int_op tok o (decimal v) = others.decimal_op tok (int o) v
    int_op tok o (char v) =
        or_error tok int_type char_type (with_rune int_kind tok (to_rune o) v o (extend v))
    int_op tok o (bool v) = or_error tok int_type int_type (arithmetic int_kind tok o (bit v))
    int_op tok o nil_value = or_error tok int_type nil_type (beside_nil tok)
    int_op tok o (str v) = operand_type tok int_type str_type
    int_op tok o (other v) = operand_type tok int_type (other_type v)

    unfoldable pub uint_op : Token → ℕ → Object F D T → Outcome F D T
    uint_op tok o (uint v) = or_error tok uint_type uint_type (arithmetic uint_kind tok o v)
    uint_op tok o (int v) = or_error tok uint_type uint_type (arithmetic uint_kind tok o v)
    uint_op tok o (float v) = others.float_op tok (uint o) v
    uint_op tok o (decimal v) = others.decimal_op tok (uint o) v
    uint_op tok o (char v) =
        or_error tok uint_type char_type (with_rune uint_kind tok (to_rune o) v o (extend v))
    uint_op tok o (bool v) = or_error tok uint_type uint_type (arithmetic uint_kind tok o (bit v))
    uint_op tok o nil_value = or_error tok uint_type nil_type (beside_nil tok)
    uint_op tok o (str v) = operand_type tok uint_type str_type
    uint_op tok o (other v) = operand_type tok uint_type (other_type v)

    -- A rune before a text is joined to it.
    unfoldable pub before_text : Token → ℕ → String → Outcome F D T
    before_text Token.add o v = done (str (others.rune_text o <> v))
    before_text tok o v = operand_type tok char_type str_type

    unfoldable pub char_op : Token → ℕ → Object F D T → Outcome F D T
    char_op tok o (char v) = or_error tok char_type char_type (arithmetic char_kind tok o v)
    char_op tok o (int v) =
        or_error tok char_type int_type (with_rune int_kind tok o (to_rune v) (extend o) v)
    char_op tok o (uint v) =
        or_error tok char_type uint_type (with_rune uint_kind tok o (to_rune v) (extend o) v)
    char_op tok o (bool v) = or_error tok char_type char_type (arithmetic char_kind tok o (bit v))
    char_op tok o (str v) = before_text tok o v
    char_op tok o nil_value = or_error tok char_type nil_type (beside_nil tok)
    char_op tok o (float v) = operand_type tok char_type float_type
    char_op tok o (decimal v) = operand_type tok char_type decimal_type
    char_op tok o (other v) = operand_type tok char_type (other_type v)

    -- Two booleans are taken as two integers, the error names the right one as such.
    unfoldable pub bool_op : Token → Bool → Object F D T → Outcome F D T
    bool_op tok o (int v) = or_error tok bool_type int_type (arithmetic int_kind tok (bit o) v)
    bool_op tok o (uint v) = or_error tok bool_type uint_type (arithmetic uint_kind tok (bit o) v)
    bool_op tok o (bool v) =
        or_error tok bool_type int_type (arithmetic int_kind tok (bit o) (bit v))
    bool_op tok o nil_value = or_error tok bool_type nil_type (beside_nil tok)
    bool_op tok o right = operand_type tok bool_type (kind_of right)

    -- Nil is below any other object.
    unfoldable pub nil_left : Token → Object F D T → Option (Outcome F D T)
    nil_left Token.less nil_value = some (done (bool false))
    nil_left Token.greater nil_value = some (done (bool false))
    nil_left Token.less_eq nil_value = some (done (bool true))
    nil_left Token.greater_eq nil_value = some (done (bool true))
    nil_left Token.less right = some (done (bool true))
    nil_left Token.less_eq right = some (done (bool true))
    nil_left Token.greater right = some (done (bool false))
    nil_left Token.greater_eq right = some (done (bool false))
    nil_left tok right = none

    unfoldable pub nil_op : Token → Object F D T → Outcome F D T
    nil_op tok right = or_error tok nil_type (kind_of right) (nil_left tok right)

    unfoldable pub binary_op : Token → Object F D T → Object F D T → Outcome F D T
    binary_op tok (int o) right = int_op tok o right
    binary_op tok (uint o) right = uint_op tok o right
    binary_op tok (char o) right = char_op tok o right
    binary_op tok (bool o) right = bool_op tok o right
    binary_op tok nil_value right = nil_op tok right
    binary_op tok left right = others.left_op tok left right
