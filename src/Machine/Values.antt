-- ===== src/Machine/Values.antt =====
-- The machine computes the values of expressions; and what conditions that test for nil leave.
use mathlib.Core.Path.{subst}
use gad.Prelude.{
  String, ℕ, ◌+◌, ◌-◌, ◌≤◌, max, ◌<◌, ◌≡◌, refl, sym, inl, inr, Bool, true, false, not, Bool-cases,
  List, [], ◌∷◌, ◌++◌, length, get_elem?-some, if◌then◌else◌, arith,
}
use gad.Prelude.Result.{Result, ok}
use gad.Opcode.{
  opcode_operands, op_constant, op_get_local, op_binary_op, op_is_nil, op_not_is_nil, op_equal,
  op_not_equal, op_true, op_false, op_jump_falsy, op_nil, op_unary,
}
use gad.Instruction.{make_instruction, operand_bytes}
use gad.Instruction.Cases.{layout}
use gad.Instruction.Stream.{Code, instruction_bytes}
use gad.Machine.{Objects, execute, pop, pop_two}
use gad.Machine.Expression
use gad.Machine.Expression.{Expr, value, found, goes_on, and_then, depth}
use gad.Token.{token_code}
use gad.Machine.Compile.{jump_of}
use gad.Machine.Layout.{size, jump_code, branch_code, expr_code}
use gad.Machine.Run.{Continues, continue-then}
use gad.Machine.Pieces.{
  continue-binary, continue-unary, continue-constant, continue-local, continue-bare,
}
use gad.Machine.Jumps.{HasWord, Jumps, continue-jump}
use gad.Machine.Branches.{run-true, run-false}

module _ {ℓ} {V : Type ℓ} (o : Objects V) (constants locals : List V) where
  -- Constants, slots and tokens are in range and fit their operands, and no condition tests for nil.
  abbrev pub IsPlain : Expr → Type 0
  IsPlain (Expression.constant p i) = (i < 65536) × (i < length constants)
  IsPlain (Expression.local p i) = (i < 256) × (i < length locals)
  IsPlain (Expression.bool p b) = Unit
  IsPlain (Expression.nil p) = Unit
  IsPlain (Expression.binary p tok l r) = (token_code tok < 256) × IsPlain l × IsPlain r
  IsPlain (Expression.equal p l r) = IsPlain l × IsPlain r
  IsPlain (Expression.not_equal p l r) = IsPlain l × IsPlain r
  IsPlain (Expression.logical p k l r) = IsPlain l × IsPlain r
  IsPlain (Expression.unary p tok e) = (token_code tok < 256) × IsPlain e
  IsPlain (Expression.is_null p e) = IsPlain e
  IsPlain (Expression.not_null p e) = IsPlain e
  IsPlain (Expression.cond p c t f) = IsPlain c × IsPlain t × IsPlain f
  IsPlain (Expression.cond_bool p b t f) = IsPlain t × IsPlain f
  IsPlain (Expression.cond_null p e t f) = ⊥
  IsPlain (Expression.cond_not_null p e t f) = ⊥

pub depth_pos : (e : Expr) → 1 ≤ depth e
unfolding depth
depth_pos (Expression.constant q i) = omega arith
depth_pos (Expression.local q i) = omega arith
depth_pos (Expression.bool q b) = omega arith
depth_pos (Expression.nil q) = omega arith
depth_pos (Expression.binary q tok l r) = omega (arith, depth_pos l)
depth_pos (Expression.equal q l r) = omega (arith, depth_pos l)
depth_pos (Expression.not_equal q l r) = omega (arith, depth_pos l)
depth_pos (Expression.logical q k l r) = omega (arith, depth_pos l)
depth_pos (Expression.unary q tok e) = depth_pos e
depth_pos (Expression.is_null q e) = depth_pos e
depth_pos (Expression.not_null q e) = depth_pos e
depth_pos (Expression.cond q c t f) = omega (arith, depth_pos c)
depth_pos (Expression.cond_bool q b t f) = omega (arith, depth_pos t)
depth_pos (Expression.cond_null q e t f) = omega (arith, depth_pos e)
depth_pos (Expression.cond_not_null q e t f) = omega (arith, depth_pos e)

-- The code of an operator behind that of its operands.
abbrev code_one : Expr → (ℕ → Code) → ℕ → Code
code_one r op n = expr_code r n ++ op (n + size (expr_code r n))

abbrev code_two : Expr → Expr → (ℕ → Code) → ℕ → Code
code_two l r op n = expr_code l n ++ code_one r op (n + size (expr_code l n))

module _ {ℓ} {V : Type ℓ} (o : Objects V) (constants locals : List V) (insts : List ℕ) where
  abbrev C : ℕ → (ℕ → Code) → List V → Result String V → Type ℓ
  C = Continues o constants locals insts

  run-bool :
      (b : Bool) → C 1 (λ n. ((if b then op_true else op_false), []) ∷ []) [] (ok (o.of_bool b))
  unfolding execute instruction_bytes make_instruction operand_bytes layout opcode_operands
  run-bool true =
      continue-bare o constants locals insts 1 op_true [] (o.of_bool true) (omega arith) refl
        (λ f s e. ground (arith, e))
  run-bool false =
      continue-bare o constants locals insts 1 op_false [] (o.of_bool false) (omega arith) refl
        (λ f s e. ground (arith, e))

  run-nil : C 1 (λ n. (op_nil, []) ∷ []) [] (ok o.nil_value)
  unfolding execute instruction_bytes make_instruction operand_bytes layout opcode_operands
  run-nil =
      continue-bare o constants locals insts 1 op_nil [] o.nil_value (omega arith) refl
        (λ f s e. ground (arith, e))

  run-equal : (a b : V) → C 0 (λ n. (op_equal, []) ∷ []) (b ∷ a ∷ []) (ok (o.of_bool (o.equal a b)))
  unfolding execute pop_two instruction_bytes make_instruction operand_bytes layout opcode_operands
  run-equal a b =
      continue-bare o constants locals insts 0 op_equal (b ∷ a ∷ []) _ (omega arith) refl
        (λ f s e. ground (arith, e))

  run-not_equal :
      (a b : V)
      → C 0 (λ n. (op_not_equal, []) ∷ []) (b ∷ a ∷ []) (ok (o.of_bool (not (o.equal a b))))
  unfolding execute pop_two instruction_bytes make_instruction operand_bytes layout opcode_operands
  run-not_equal a b =
      continue-bare o constants locals insts 0 op_not_equal (b ∷ a ∷ []) _ (omega arith) refl
        (λ f s e. ground (arith, e))

  run-is_nil : (a : V) → C 0 (λ n. (op_is_nil, []) ∷ []) (a ∷ []) (ok (o.of_bool (o.is_nil a)))
  unfolding execute pop instruction_bytes make_instruction operand_bytes layout opcode_operands
  run-is_nil a =
      continue-bare o constants locals insts 0 op_is_nil (a ∷ []) _ (omega arith) refl
        (λ f s e. ground (arith, e))

  run-not_is_nil :
      (a : V) → C 0 (λ n. (op_not_is_nil, []) ∷ []) (a ∷ []) (ok (o.of_bool (not (o.is_nil a))))
  unfolding execute pop instruction_bytes make_instruction operand_bytes layout opcode_operands
  run-not_is_nil a =
      continue-bare o constants locals insts 0 op_not_is_nil (a ∷ []) _ (omega arith) refl
        (λ f s e. ground (arith, e))

  jump_of-HasWord : (k : Expression.Logical) → HasWord (jump_of k)
  unfolding jump_of instruction_bytes make_instruction operand_bytes layout opcode_operands
  jump_of-HasWord Expression.and a = refl
  jump_of-HasWord Expression.or a = refl
  jump_of-HasWord Expression.coalesce a = refl

  jump_of-Jumps :
      (k : Expression.Logical) (v : V)
      → Jumps o constants locals insts
          (jump_of k)
          v
          (goes_on o constants locals k v)
          (λ s. s)
          (λ s. v ∷ s)
  unfolding jump_of goes_on execute pop
  jump_of-Jumps Expression.and v f s target e w = ground (arith, e, w)
  jump_of-Jumps Expression.or v f s target e w = ground (arith, e, w)
  jump_of-Jumps Expression.coalesce v f s target e w = ground (arith, e, w)

  jump_falsy-HasWord : HasWord op_jump_falsy
  unfolding instruction_bytes make_instruction operand_bytes layout opcode_operands
  jump_falsy-HasWord a = refl

  jump_falsy-Jumps :
      (v : V) (b : Bool)
      → o.is_falsy v ≡ b
      → Jumps o constants locals insts op_jump_falsy v (not b) (λ s. s) (λ s. s)
  unfolding execute pop
  jump_falsy-Jumps v b t f s target e w = ground (arith, e, w, t)

  run-cond :
      (d dy dn : ℕ) (on off : ℕ → Code) (r r' : Result String V) (v : V)
      → 1 ≤ dy
      → dy ≤ d + 1
      → dn ≤ d + 1
      → C dy on [] r
      → C dn off [] r'
      → C d (λ n. branch_code op_jump_falsy n on off) (v ∷ []) (if o.is_falsy v then r' else r)
  run-cond d dy dn on off r r' v some_room ly ln cy cn p s h b room =
      elim (Bool-cases (o.is_falsy v)) [
        | inl f ↦ rw f (
            run-false o constants locals insts op_jump_falsy jump_falsy-HasWord on off v r r'
              (λ t. t) (λ t. t) dy dn cy cn p s h b (jump_falsy-Jumps v true f) (omega arith))
        | inr t ↦ rw t (
            run-true o constants locals insts op_jump_falsy jump_falsy-HasWord on off v r r'
              (λ t. t) (λ t. t) dy dn cy cn p s h b (jump_falsy-Jumps v false t) some_room
              (omega arith))
      ]

  more_room : (x : ℕ → Code) (r : Result String V) (d d' : ℕ) → d ≤ d' → C d x [] r → C d' x [] r
  more_room x r d d' less run p s st b room = run p s st b (omega arith)

  -- An operator behind its operands.
  continue-one :
      (e : Expr) (op : ℕ → Code) (k : V → Result String V)
      → C (depth e) (expr_code e) [] (value o constants locals e)
      → ((a : V) → C 0 op (a ∷ []) (k a))
      → C
          (depth e)
          (λ n. expr_code e n ++ op (n + size (expr_code e n)))
          []
          (and_then (value o constants locals e) k)
  continue-one e op k run apply =
      continue-then o constants locals insts (depth e) (depth e) 0 (expr_code e) op [] _ k
        (omega arith) (depth_pos e) run apply

  continue-two :
      (l r : Expr) (op : ℕ → Code) (k : V → V → Result String V)
      → C (depth l) (expr_code l) [] (value o constants locals l)
      → C (depth r) (expr_code r) [] (value o constants locals r)
      → ((a b : V) → C 0 op (b ∷ a ∷ []) (k a b))
      → C
          (max (depth l) (depth r + 1))
          (code_two l r op)
          []
          (and_then (value o constants locals l) (λ a. and_then (value o constants locals r) (k a)))
  continue-two l r op k left right apply =
      continue-then o constants locals insts (max (depth l) (depth r + 1)) (depth l) (depth r)
        (expr_code l) (code_one r op) [] _ _ (omega arith) (omega arith) left
        (λ a.
          continue-then o constants locals insts (depth r) (depth r) 0 (expr_code r) op (a ∷ []) _
            (k a) (omega arith) (depth_pos r) right (apply a))

  -- The code of an expression, for `Runs`.
  pub run-value :
      (e : Expr)
      → IsPlain o constants locals e
      → C (depth e) (expr_code e) [] (value o constants locals e)
  unfolding expr_code value found depth
  run-value (Expression.constant q i) h =
      let (v, g) = get_elem?-some constants i h.1 in
      subst (λ t. C 1 (λ n. (op_constant, i ∷ []) ∷ []) [] (found o constants locals t)) (sym g)
        (continue-constant o constants locals insts i v h.0 g)
  run-value (Expression.local q i) h =
      let (v, g) = get_elem?-some locals i h.1 in
      subst (λ t. C 1 (λ n. (op_get_local, i ∷ []) ∷ []) [] (found o constants locals t)) (sym g)
        (continue-local o constants locals insts i v h.0 g)
  run-value (Expression.bool q b) h = run-bool b
  run-value (Expression.nil q) h = run-nil
  run-value (Expression.binary q tok l r) h =
      continue-two l r (λ n. (op_binary_op, token_code tok ∷ []) ∷ []) _ (run-value l h.1)
        (run-value r h.2) (λ a b. continue-binary o constants locals insts (token_code tok) a b h.0)
  run-value (Expression.equal q l r) h =
      continue-two l r (λ n. (op_equal, []) ∷ []) _ (run-value l h.0) (run-value r h.1) run-equal
  run-value (Expression.not_equal q l r) h =
      continue-two l r (λ n. (op_not_equal, []) ∷ []) _ (run-value l h.0) (run-value r h.1)
        run-not_equal
  run-value (Expression.logical q k l r) h =
      let some_room = depth_pos r in
      continue-then o constants locals insts (max (depth l) (depth r)) (depth l) (depth r - 1)
        (expr_code l) (λ n. jump_code (jump_of k) n (expr_code r)) [] _ _ (omega arith)
        (omega arith) (run-value l h.0)
        (λ a.
          continue-jump o constants locals insts (jump_of k) (jump_of-HasWord k) (depth r - 1)
            (depth r) (expr_code r) a (value o constants locals r) (goes_on o constants locals k a)
            (omega arith) (jump_of-Jumps k a) (run-value r h.1))
  run-value (Expression.unary q tok e) h =
      continue-one e (λ n. (op_unary, token_code tok ∷ []) ∷ []) _ (run-value e h.1)
        (λ a. continue-unary o constants locals insts (token_code tok) a h.0)
  run-value (Expression.is_null q e) h =
      continue-one e (λ n. (op_is_nil, []) ∷ []) _ (run-value e h) run-is_nil
  run-value (Expression.not_null q e) h =
      continue-one e (λ n. (op_not_is_nil, []) ∷ []) _ (run-value e h) run-not_is_nil
  run-value (Expression.cond q c t f) h =
      let some_room = depth_pos t in
      let d = max (depth t) (depth f) in
      continue-then o constants locals insts (max (depth c) d) (depth c) (d - 1) (expr_code c)
        (λ n. branch_code op_jump_falsy n (expr_code t) (expr_code f)) [] _ _ (omega arith)
        (omega arith) (run-value c h.0)
        (λ a.
          run-cond (d - 1) (depth t) (depth f) (expr_code t) (expr_code f)
            (value o constants locals t) (value o constants locals f) a some_room (omega arith)
            (omega arith) (run-value t h.1) (run-value f h.2))
  run-value (Expression.cond_bool q true t f) h =
      more_room (expr_code t) _ (depth t) (max (depth t) (depth f)) (omega arith) (run-value t h.0)
  run-value (Expression.cond_bool q false t f) h =
      more_room (expr_code f) _ (depth f) (max (depth t) (depth f)) (omega arith) (run-value f h.1)
  run-value (Expression.cond_null q e t f) h = absurd h
  run-value (Expression.cond_not_null q e t f) h = absurd h
