-- ===== src/Tests/Numbers.antt =====
-- An int of -1 beside a uint, a rune and nil.
use gad.Prelude.{ℕ, ◌-◌, ◌^◌, ◌≡◌, refl, Bool, true, false, arith}
use gad.Token.{Token}
use gad.Numbers.{
  Object, Outcome, Others, int, uint, char, bool, nil_value, done, zero_division, operand_type,
  panicked, int_type, bool_type, char_type,
}
use gad.Numbers.Operators.{binary_op}
use gad.Numbers.Equality.{equal}
use gad.Numbers.Range.{InRange}
use gad.Numbers.Order.{ExactlyOne, Agrees, Comparable, binary_op-Ordered}

-- No other objects.
abbrev none_other : Others ⊥ ⊥ ⊥
none_other = record {
  left_op = λ tok l r. panicked;
  float_op = λ tok l r. panicked;
  decimal_op = λ tok l r. panicked;
  left_equal = λ l r. false;
  float_equal = λ l r. false;
  decimal_equal = λ l r. false;
  left_falsy = λ l. true;
  rune_text = λ r. "?";
}

abbrev minus_one : ℕ
minus_one = 2 ^ 64 - 1

-- The int is converted: -1 is the largest uint.
minus_one_uint : equal none_other (int minus_one) (uint minus_one) ≡ true
unfolding equal gad.Numbers.Equality.int_equal
minus_one_uint = refl

-- A rune equals a boolean that it does not find itself equal to.
rune_first : equal none_other (char 1) (bool true) ≡ true
unfolding equal gad.Numbers.Equality.char_equal gad.Numbers.Equality.equal_bool
rune_first = refl

bool_first : equal none_other (bool true) (char 1) ≡ false
unfolding equal gad.Numbers.Equality.bool_equal
bool_first = refl

bool_plus_rune :
    binary_op none_other Token.add (bool true) (char 1) ≡ operand_type Token.add bool_type char_type
unfolding binary_op gad.Numbers.Operators.bool_op gad.Numbers.Operators.kind_of
bool_plus_rune = refl

by_zero : binary_op none_other Token.quo (int 5) (int 0) ≡ zero_division
unfolding binary_op gad.Numbers.Operators.int_op gad.Numbers.Operators.arithmetic
    gad.Numbers.Operators.divide
by_zero = refl

remainder_by_zero : binary_op none_other Token.rem (int 5) (int 0) ≡ panicked
unfolding binary_op gad.Numbers.Operators.int_op gad.Numbers.Operators.arithmetic
    gad.Numbers.Operators.remainder
remainder_by_zero = refl

binary_op-Ordered_example :
    (l e g : Bool) × ExactlyOne l e g
    × Agrees none_other l e g (int minus_one) (char 65)
    × Agrees none_other g e l (char 65) (int minus_one)
binary_op-Ordered_example =
    binary_op-Ordered none_other (int minus_one) (char 65) (unfold InRange in omega arith)
      (unfold InRange in omega arith) (unfold Comparable in tt)
