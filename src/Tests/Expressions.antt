-- ===== src/Tests/Expressions.antt =====
-- A small expression, compiled and run on numbers, with 0 for nil.
use gad.Prelude.{
  ℕ, ◌+◌, ◌<◌, ◌≤◌, ◌≡◌, refl, ◌==◌, none, some, List, [], ◌∷◌, ◌++◌, length, if◌then◌else◌, arith,
}
use gad.Prelude.Result.{ok, err}
use gad.Opcode.{opcode_operands}
use gad.Instruction.{make_instruction, operand_bytes}
use gad.Instruction.Cases.{layout}
use gad.Instruction.Stream.{Code, encode}
use gad.Emitter.{Emitter, emit}
use gad.Machine.{Objects}
use gad.Machine.Expression
use gad.Machine.Expression.{
  Expr, value, found, and_then, goes_on, depth, IsAccepted, is_arithmetic, cond_expr,
}
use gad.Token.{Token, token_code, is_binary_operator, is_one_of, same_token}
use gad.Machine.Compile.{compile, emit_operator, emit_last}
use gad.Machine.Layout.{size, expr_code}
use gad.Machine.Run.{Runs, frame, arrive}
use gad.Machine.Values.{IsPlain}
use gad.Machine.Correct.{compile-expr_code}
use gad.Machine.Compiled.{compile-Runs}
use gad.Machine.Leaves.{cond_null-leaves, cond_not_null-leaves}

abbrev numbers : Objects ℕ
numbers = record {
  is_falsy = λ v. v == 0;
  equals_nil = λ v. v == 0;
  is_nil = λ v. v == 0;
  equal = λ a b. a == b;
  of_bool = λ b. if b then 1 else 0;
  of_flag = λ b. if b then 1 else 0;
  nil_value = 0;
  binary_op = λ tok a b. if tok == 25 then ok (a + b) else err "invalid operator";
  unary_op = λ tok a. ok (if a == 0 then 1 else 0);
}

-- a && (a + 7)
abbrev sum : Expr
sum =
    Expression.logical 1 Expression.and (Expression.local 2 0)
      (Expression.binary 3 Token.add (Expression.local 4 0) (Expression.constant 5 0))

abbrev start : Emitter
start = record { instructions = []; source_map = λ k. none }

sum-IsPlain : IsPlain numbers (7 ∷ []) (3 ∷ []) sum
unfolding token_code
sum-IsPlain = (
  (omega arith, omega arith),
  (omega arith, (omega arith, omega arith), (omega arith, omega arith)),
)

sum_value : value numbers (7 ∷ []) (3 ∷ []) sum ≡ ok 10
unfolding value found and_then goes_on token_code
sum_value = refl

empty_start : start.instructions ≡ encode []
unfolding encode
empty_start = refl

sum-IsAccepted : IsAccepted sum
unfolding is_arithmetic is_binary_operator is_one_of same_token token_code
sum-IsAccepted = (tt, (refl, tt, tt))

depth-sum : depth sum ≡ 2
unfolding depth
depth-sum = refl

compile-expr_code_example :
    (IsAccepted sum
      → (c' : Emitter) × ((compile sum start ≡ some c')
          × (c'.instructions ≡ encode ([] ++ expr_code sum (size [])))))
    × ((c' : Emitter) → compile sum start ≡ some c' → IsAccepted sum)
compile-expr_code_example = compile-expr_code sum start [] empty_start

-- A token that is no operator is an error.
rejected :
    compile (Expression.binary 3 Token.define (Expression.nil 4) (Expression.nil 5)) start ≡ none
unfolding compile emit_operator emit_last emit is_arithmetic is_binary_operator is_one_of same_token
    token_code make_instruction operand_bytes layout opcode_operands
rejected = refl

compile-Runs_example :
    (c' : Emitter) × ((compile sum start ≡ some c')
      × ((q : Code) (s : List ℕ)
          → length c'.instructions < 65536
          → 1 + length s + depth sum ≤ 2048
          → Runs numbers
              (7 ∷ [])
              (c'.instructions ++ encode q)
              (frame (3 ∷ []) 0 s)
              (arrive (3 ∷ []) (length c'.instructions) s (value numbers (7 ∷ []) (3 ∷ []) sum))))
compile-Runs_example =
    compile-Runs numbers (7 ∷ []) (3 ∷ []) sum start [] sum-IsAccepted sum-IsPlain empty_start

abbrev a : Expr
a = Expression.local 2 0

abbrev seven : Expr
seven = Expression.constant 3 0

a-IsPlain : IsPlain numbers (7 ∷ []) (3 ∷ []) a
a-IsPlain = (omega arith, omega arith)

seven-IsPlain : IsPlain numbers (7 ∷ []) (3 ∷ []) seven
seven-IsPlain = (omega arith, omega arith)

a_value : value numbers (7 ∷ []) (3 ∷ []) a ≡ ok 3
unfolding value found
a_value = refl

-- a == nil ? 7 : a and a != nil ? 7 : a
cond_null-leaves_example :
    (c' : Emitter) × ((compile (cond_expr 1 (Expression.is_null 4 a) seven a) start ≡ some c')
      × ((after : Code) (s : List ℕ)
          → length c'.instructions < 65536
          → 1 + length s + depth (Expression.cond_null 1 a seven a) ≤ 2048
          → Runs numbers (7 ∷ []) (c'.instructions ++ encode after) (frame (3 ∷ []) 0 s) (
              arrive
                (3 ∷ [])
                (length c'.instructions)
                (3 ∷ s)
                (value numbers (7 ∷ []) (3 ∷ []) a))))
cond_null-leaves_example =
    cond_null-leaves numbers (7 ∷ []) (3 ∷ []) 1 4 a seven a 3 start [] (tt, tt, tt) a-IsPlain
      seven-IsPlain a-IsPlain a_value empty_start

cond_not_null-leaves_example :
    (c' : Emitter) × ((compile (cond_expr 1 (Expression.not_null 4 a) seven a) start ≡ some c')
      × ((after : Code) (s : List ℕ)
          → length c'.instructions < 65536
          → 1 + length s + depth (Expression.cond_not_null 1 a seven a) ≤ 2048
          → Runs numbers (7 ∷ []) (c'.instructions ++ encode after) (frame (3 ∷ []) 0 s) (
              arrive
                (3 ∷ [])
                (length c'.instructions)
                (3 ∷ s)
                (value numbers (7 ∷ []) (3 ∷ []) seven))))
cond_not_null-leaves_example =
    cond_not_null-leaves numbers (7 ∷ []) (3 ∷ []) 1 4 a seven a 3 start [] (tt, tt, tt) a-IsPlain
      seven-IsPlain a-IsPlain a_value empty_start
