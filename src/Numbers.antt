-- ===== src/Numbers.antt =====
-- numeric.go and the parts of objects.go and objects_api.go for bool and nil: the operators of `Int`,
-- `Uint`, `Char`, `Bool` and nil. An integer is its word, a number below two to its width, a negative
-- one in two's complement. Numbers/Word.antt has the arithmetic of words, Numbers/Operators.antt
-- `BinaryOp` and Numbers/Equality.antt `Equal` and `IsFalsy`. `Float`, `Decimal` and the objects that
-- are not numbers are a parameter, `Others`.
pub mod Word
pub mod Operators
pub mod Equality
pub mod Range
pub mod Order
use gad.Prelude.{ℕ, Bool, String}
use gad.Token.{Token}

module _ (F D T : Type 0) where
  pub data Object : Type 0 where
    int uint char : ℕ → Object
    bool : Bool → Object
    nil_value : Object
    float : F → Object
    decimal : D → Object
    str : String → Object
    other : T → Object

  -- The type of an object, which an error names.
  pub data Kind : Type 0 where
    int_type uint_type char_type bool_type nil_type float_type decimal_type str_type : Kind
    other_type : T → Kind

  -- What `BinaryOp` returns: a value, `ErrZeroDivision`, `NewOperandTypeError` of the token and the
  -- types of the operands; or it panics.
  pub data Outcome : Type 0 where
    done : Object → Outcome
    zero_division : Outcome
    operand_type : Token → Kind → Kind → Outcome
    panicked : Outcome

  -- The operators of the other objects: `left_op` where the left operand is one, `float_op` and
  -- `decimal_op` after the left operand was converted to one; and likewise for `Equal`. `rune_text`
  -- is the text of a rune.
  pub record Others : Type 0 where
    pub left_op : Token → Object → Object → Outcome
    pub float_op : Token → Object → F → Outcome
    pub decimal_op : Token → Object → D → Outcome
    pub left_equal : Object → Object → Bool
    pub float_equal : Object → F → Bool
    pub decimal_equal : Object → D → Bool
    pub left_falsy : Object → Bool
    pub rune_text : ℕ → String
