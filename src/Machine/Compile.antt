-- ===== src/Machine/Compile.antt =====
-- compiler_nodes.go: the code of an expression, emitted and patched as the compiler does it.
-- `compileLogical`, `compileBinaryExpr`, `compileUnaryExpr` and `compileCondExpr`.
use gad.Prelude.{ℕ, Bool, true, false, Option, none, some, List, [], ◌∷◌, length, if◌then◌else◌}
use gad.Prelude.Result.{◌>>=◌}
use gad.Opcode.{
  Opcode, op_constant, op_get_local, op_binary_op, op_and_jump, op_or_jump, op_jump_nil,
  op_jump_not_nil, op_is_nil, op_not_is_nil, op_equal, op_not_equal, op_true, op_false, op_jump,
  op_jump_falsy, op_nil, op_unary,
}
use gad.Emitter.{Emitter, emit, change_operand}
use gad.Token.{Token, token_code}
use gad.Machine.Expression
use gad.Machine.Expression.{is_other, is_arithmetic, is_unary}

unfoldable pub jump_of : Expression.Logical → Opcode
jump_of Expression.and = op_and_jump
jump_of Expression.or = op_or_jump
jump_of Expression.coalesce = op_jump_not_nil

-- `emit` where its result is not used.
unfoldable pub emit_last : Emitter → ℕ → Opcode → List ℕ → Option Emitter
emit_last c p op args = do e ← emit c p op args; some e.0

-- A jump with a placeholder, the code in between, and the target behind it.
unfoldable pub jump_over : Emitter → ℕ → Opcode → (Emitter → Option Emitter) → Option Emitter
jump_over c p op between = do
  e ← emit c p op (0 ∷ [])
  c' ← between e.0
  change_operand c' e.1 (length c'.instructions ∷ [])

-- The end of `compileCondExpr`, after the condition.
unfoldable pub branches :
    Emitter → ℕ → Opcode → (Emitter → Option Emitter) → (Emitter → Option Emitter) → Option Emitter
branches c p op on_true on_false = do
  jump1 ← emit c p op (0 ∷ [])
  c1 ← on_true jump1.0
  jump2 ← emit c1 p op_jump (0 ∷ [])
  c2 ← change_operand jump2.0 jump1.1 (length jump2.0.instructions ∷ [])
  c3 ← on_false c2
  change_operand c3 jump2.1 (length c3.instructions ∷ [])

-- An operator that is not a binary or a unary one is an error.
unfoldable pub emit_operator : Bool → Emitter → ℕ → Opcode → Token → Option Emitter
unfolding emit_last
emit_operator true c p op tok = emit_last c p op (token_code tok ∷ [])
emit_operator false c p op tok = none

-- `none` is an error of the compiler, or a panic. A pipe, which is compiled as a call, is not modelled,
-- nor is a condition in a case that is not its own.
unfoldable pub compile : Expression.Expr → Emitter → Option Emitter
compile (Expression.constant p i) c = emit_last c p op_constant (i ∷ [])
compile (Expression.local p i) c = emit_last c p op_get_local (i ∷ [])
compile (Expression.bool p b) c = emit_last c p (if b then op_true else op_false) []
compile (Expression.nil p) c = emit_last c p op_nil []
compile (Expression.binary p tok l r) c = do
  c1 ← compile l c
  c2 ← compile r c1
  emit_operator (is_arithmetic tok) c2 p op_binary_op tok
compile (Expression.equal p l r) c = do
  c1 ← compile l c
  c2 ← compile r c1
  emit_last c2 p op_equal []
compile (Expression.not_equal p l r) c = do
  c1 ← compile l c
  c2 ← compile r c1
  emit_last c2 p op_not_equal []
compile (Expression.logical p k l r) c = do
  c1 ← compile l c
  jump_over c1 p (jump_of k) (λ c'. compile r c')
compile (Expression.unary p tok e) c = do
  c1 ← compile e c
  emit_operator (is_unary tok) c1 p op_unary tok
compile (Expression.is_null p e) c = do c1 ← compile e c; emit_last c1 p op_is_nil []
compile (Expression.not_null p e) c = do c1 ← compile e c; emit_last c1 p op_not_is_nil []
compile (Expression.cond p e t f) c =
    let code = (do
      c1 ← compile e c
      branches c1 p op_jump_falsy (λ c'. compile t c') (λ c'. compile f c')) in
    if is_other e then code else none
compile (Expression.cond_bool p true t f) c = compile t c
compile (Expression.cond_bool p false t f) c = compile f c
compile (Expression.cond_null p e t f) c = do
  c1 ← compile e c
  branches c1 p op_jump_not_nil (λ c'. compile t c') (λ c'. compile f c')
compile (Expression.cond_not_null p e t f) c = do
  c1 ← compile e c
  branches c1 p op_jump_nil (λ c'. compile t c') (λ c'. compile f c')
