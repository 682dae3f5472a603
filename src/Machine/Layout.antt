-- ===== src/Machine/Layout.antt =====
-- The code of an expression as a sequence of instructions, placed at a position, and the theorem that
-- emitting and patching makes just this code.
use gad.Prelude.{ℕ, ◌+◌, true, false, [], ◌∷◌, ◌++◌, length, if◌then◌else◌}
use gad.Opcode.{
  Opcode, op_constant, op_get_local, op_binary_op, op_jump_nil, op_jump_not_nil, op_is_nil,
  op_not_is_nil, op_equal, op_not_equal, op_true, op_false, op_jump, op_jump_falsy, op_nil,
  op_unary,
}
use gad.Token.{token_code}
use gad.Instruction.Stream.{Code, encode}
use gad.Machine.Expression
use gad.Machine.Compile.{jump_of}

abbrev pub size : Code → ℕ
size p = length (encode p)

-- A jump takes three bytes.
unfoldable pub jump_code : Opcode → ℕ → (ℕ → Code) → Code
jump_code op base between =
    let inside = between (base + 3) in (op, (base + 3 + size inside) ∷ []) ∷ inside

unfoldable pub branch_code : Opcode → ℕ → (ℕ → Code) → (ℕ → Code) → Code
branch_code op base on_true on_false =
    let yes = on_true (base + 3) in
    let middle = base + 3 + size yes + 3 in
    let no = on_false middle in (op, middle ∷ []) ∷ (yes ++ (op_jump, (middle + size no) ∷ []) ∷ no)

unfoldable pub expr_code : Expression.Expr → ℕ → Code
expr_code (Expression.constant p i) base = (op_constant, i ∷ []) ∷ []
expr_code (Expression.local p i) base = (op_get_local, i ∷ []) ∷ []
expr_code (Expression.bool p b) base = ((if b then op_true else op_false), []) ∷ []
expr_code (Expression.nil p) base = (op_nil, []) ∷ []
expr_code (Expression.binary p tok l r) base =
    let left = expr_code l base in
    left ++ (expr_code r (base + size left) ++ (op_binary_op, token_code tok ∷ []) ∷ [])
expr_code (Expression.equal p l r) base =
    let left = expr_code l base in left ++ (expr_code r (base + size left) ++ (op_equal, []) ∷ [])
expr_code (Expression.not_equal p l r) base =
    let left = expr_code l base in
    left ++ (expr_code r (base + size left) ++ (op_not_equal, []) ∷ [])
expr_code (Expression.logical p k l r) base =
    let left = expr_code l base in
    left ++ jump_code (jump_of k) (base + size left) (λ b. expr_code r b)
expr_code (Expression.unary p tok e) base = expr_code e base ++ (op_unary, token_code tok ∷ []) ∷ []
expr_code (Expression.is_null p e) base = expr_code e base ++ (op_is_nil, []) ∷ []
expr_code (Expression.not_null p e) base = expr_code e base ++ (op_not_is_nil, []) ∷ []
expr_code (Expression.cond p e t f) base =
    let test = expr_code e base in
    test ++ branch_code op_jump_falsy (base + size test) (λ b. expr_code t b) (λ b. expr_code f b)
expr_code (Expression.cond_bool p true t f) base = expr_code t base
expr_code (Expression.cond_bool p false t f) base = expr_code f base
expr_code (Expression.cond_null p e t f) base =
    let test = expr_code e base in
    test ++ branch_code op_jump_not_nil (base + size test) (λ b. expr_code t b) (λ b. expr_code f b)
expr_code (Expression.cond_not_null p e t f) base =
    let test = expr_code e base in
    test ++ branch_code op_jump_nil (base + size test) (λ b. expr_code t b) (λ b. expr_code f b)
