-- ===== src/Machine/Correct.antt =====
-- The compiler's code of an expression, whatever stands before it.
use gad.Prelude.{ℕ, arith, ◌≡◌, refl, Bool, true, false, some, [], ◌∷◌, ◌++◌, if◌then◌else◌}
use gad.Prelude.Result.{◌>>=◌}
use gad.Opcode.{
  Opcode, opcode_operands, op_constant, op_get_local, op_binary_op, op_jump_nil, op_jump_not_nil,
  op_is_nil, op_not_is_nil, op_equal, op_not_equal, op_true, op_false, op_jump_falsy, op_nil,
  op_unary,
}
use gad.Instruction.{make_instruction, operand_bytes}
use gad.Instruction.Cases.{layout}
use gad.Instruction.Roundtrip.{Encodable}
use gad.Instruction.Stream.{Code, encode, instruction_bytes}
use gad.Emitter.{Emitter}
use gad.Machine.Expression
use gad.Machine.Expression.{Expr, IsAccepted, is_arithmetic, is_unary}
use gad.Token.{Token, token_code}
use gad.Machine.Compile.{compile, emit_last, emit_operator, jump_over, branches, jump_of}
use gad.Machine.Accepts.{compile-IsAccepted}
use gad.Machine.Layout.{size, jump_code, branch_code, expr_code}
use gad.Machine.Emission.{Places, IsJump, place-emit, place-seq, place-jump}
use gad.Machine.Patching.{place-branches}

op_jump_falsy-IsJump : IsJump op_jump_falsy
unfolding opcode_operands encode instruction_bytes make_instruction operand_bytes layout
op_jump_falsy-IsJump a = ((λ e. cc, refl), refl)

op_jump_nil-IsJump : IsJump op_jump_nil
unfolding opcode_operands encode instruction_bytes make_instruction operand_bytes layout
op_jump_nil-IsJump a = ((λ e. cc, refl), refl)

op_jump_not_nil-IsJump : IsJump op_jump_not_nil
unfolding opcode_operands encode instruction_bytes make_instruction operand_bytes layout
op_jump_not_nil-IsJump a = ((λ e. cc, refl), refl)

jump_of-IsJump : (k : Expression.Logical) → IsJump (jump_of k)
unfolding jump_of opcode_operands encode instruction_bytes make_instruction operand_bytes layout
jump_of-IsJump Expression.and a = ((λ e. cc, refl), refl)
jump_of-IsJump Expression.or a = ((λ e. cc, refl), refl)
jump_of-IsJump Expression.coalesce a = ((λ e. cc, refl), refl)

bool-Encodable : (b : Bool) → Encodable (if b then op_true else op_false) []
unfolding opcode_operands
bool-Encodable true = (λ e. cc, refl)
bool-Encodable false = (λ e. cc, refl)

operator-Places :
    (b : Bool) (q : ℕ) (op : Opcode) (tok : Token)
    → b ≡ true
    → Encodable op (token_code tok ∷ [])
    → Places (λ c. emit_operator b c q op tok) (λ n. (op, token_code tok ∷ []) ∷ [])
unfolding emit_operator
operator-Places false q op tok h k = ground arith
operator-Places true q op tok h k = place-emit q op (token_code tok ∷ []) k

placed : (e : Expr) → IsAccepted e → Places (λ c. compile e c) (λ b. expr_code e b)
unfolding compile expr_code opcode_operands
placed (Expression.constant q i) h = place-emit q op_constant (i ∷ []) (λ e. cc, refl)
placed (Expression.local q i) h = place-emit q op_get_local (i ∷ []) (λ e. cc, refl)
placed (Expression.bool q b) h =
    place-emit q (if b then op_true else op_false) [] (bool-Encodable b)
placed (Expression.nil q) h = place-emit q op_nil [] (λ e. cc, refl)
placed (Expression.binary q tok l r) h =
    place-seq (compile l)
      (λ c. compile r c >>= λ c'. emit_operator (is_arithmetic tok) c' q op_binary_op tok)
      (expr_code l) (λ b. expr_code r b ++ (op_binary_op, (token_code tok ∷ [])) ∷ [])
      (placed l h.1)
      (place-seq (compile r) (λ c. emit_operator (is_arithmetic tok) c q op_binary_op tok)
        (expr_code r) (λ b. (op_binary_op, (token_code tok ∷ [])) ∷ []) (placed r h.2)
        (operator-Places (is_arithmetic tok) q op_binary_op tok h.0 (λ e. cc, refl)))
placed (Expression.equal q l r) h =
    place-seq (compile l) (λ c. compile r c >>= λ c'. emit_last c' q op_equal []) (expr_code l)
      (λ b. expr_code r b ++ (op_equal, []) ∷ []) (placed l h.0)
      (place-seq (compile r) (λ c. emit_last c q op_equal []) (expr_code r)
        (λ b. (op_equal, []) ∷ []) (placed r h.1) (place-emit q op_equal [] (λ e. cc, refl)))
placed (Expression.not_equal q l r) h =
    place-seq (compile l) (λ c. compile r c >>= λ c'. emit_last c' q op_not_equal []) (expr_code l)
      (λ b. expr_code r b ++ (op_not_equal, []) ∷ []) (placed l h.0)
      (place-seq (compile r) (λ c. emit_last c q op_not_equal []) (expr_code r)
        (λ b. (op_not_equal, []) ∷ []) (placed r h.1)
        (place-emit q op_not_equal [] (λ e. cc, refl)))
placed (Expression.logical q k l r) h =
    place-seq (compile l) (λ c. jump_over c q (jump_of k) (compile r)) (expr_code l)
      (λ b. jump_code (jump_of k) b (expr_code r)) (placed l h.0)
      (place-jump q (jump_of k) (compile r) (expr_code r) (jump_of-IsJump k) (placed r h.1))
placed (Expression.unary q tok e) h =
    place-seq (compile e) (λ c. emit_operator (is_unary tok) c q op_unary tok) (expr_code e)
      (λ b. (op_unary, (token_code tok ∷ [])) ∷ []) (placed e h.1)
      (operator-Places (is_unary tok) q op_unary tok h.0 (λ e. cc, refl))
placed (Expression.is_null q e) h =
    place-seq (compile e) (λ c. emit_last c q op_is_nil []) (expr_code e)
      (λ b. (op_is_nil, []) ∷ []) (placed e h) (place-emit q op_is_nil [] (λ e. cc, refl))
placed (Expression.not_null q e) h =
    place-seq (compile e) (λ c. emit_last c q op_not_is_nil []) (expr_code e)
      (λ b. (op_not_is_nil, []) ∷ []) (placed e h) (place-emit q op_not_is_nil [] (λ e. cc, refl))
placed (Expression.cond q e t f) (own, he, ht, hf) = rw own (
    place-seq (compile e) (λ c. branches c q op_jump_falsy (compile t) (compile f)) (expr_code e)
      (λ b. branch_code op_jump_falsy b (expr_code t) (expr_code f)) (placed e he)
      (place-branches q op_jump_falsy (compile t) (compile f) (expr_code t) (expr_code f)
        op_jump_falsy-IsJump (placed t ht) (placed f hf)))
placed (Expression.cond_bool q true t f) h = placed t h
placed (Expression.cond_bool q false t f) h = placed f h
placed (Expression.cond_null q e t f) (he, ht, hf) =
    place-seq (compile e) (λ c. branches c q op_jump_not_nil (compile t) (compile f)) (expr_code e)
      (λ b. branch_code op_jump_not_nil b (expr_code t) (expr_code f)) (placed e he)
      (place-branches q op_jump_not_nil (compile t) (compile f) (expr_code t) (expr_code f)
        op_jump_not_nil-IsJump (placed t ht) (placed f hf))
placed (Expression.cond_not_null q e t f) (he, ht, hf) =
    place-seq (compile e) (λ c. branches c q op_jump_nil (compile t) (compile f)) (expr_code e)
      (λ b. branch_code op_jump_nil b (expr_code t) (expr_code f)) (placed e he)
      (place-branches q op_jump_nil (compile t) (compile f) (expr_code t) (expr_code f)
        op_jump_nil-IsJump (placed t ht) (placed f hf))

-- `Compile` of an expression, in which pipes have no case, fails where some token that it reaches is
-- not an operator of the case in which it stands. Behind any code, on an expression without such
-- tokens, whose conditions stand in the case that is theirs, it does not fail or panic, and appends
-- just the code of `expr_code` for that position, jumps and their targets included.
pub compile-expr_code :
    (e : Expr) (c : Emitter) (p : Code)
    → c.instructions ≡ encode p
    → (IsAccepted e
        → (c' : Emitter) × ((compile e c ≡ some c')
            × (c'.instructions ≡ encode (p ++ expr_code e (size p)))))
      × ((c' : Emitter) → compile e c ≡ some c' → IsAccepted e)
compile-expr_code e c p is = (λ h. placed e h c p is, λ c' h. compile-IsAccepted e c c' h)
