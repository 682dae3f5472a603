-- ===== src/Machine/Leaves.antt =====
-- What a conditional expression leaves on the stack when its condition tests for nil.
use mathlib.Core.Path.{subst}
use gad.Prelude.{
  String, ℕ, ◌+◌, ◌<◌, ◌≤◌, ◌≡◌, refl, sym, ap, ◌∙◌, inl, inr, Bool, true, false, not, Bool-cases,
  List, ◌∷◌, ◌++◌, some, length, if◌then◌else◌, arith,
}
use gad.Prelude.Result.{Result, ok}
use gad.Opcode.{opcode_operands, op_jump_nil, op_jump_not_nil}
use gad.Instruction.{make_instruction, operand_bytes}
use gad.Instruction.Cases.{layout}
use gad.Instruction.Stream.{Code, encode, instruction_bytes}
use gad.Machine.{Objects, execute, pop}
use gad.Machine.Expression
use gad.Machine.Expression.{Expr, value, and_then, depth, IsAccepted, cond_expr}
use gad.Machine.Layout.{size, branch_code, expr_code}
use gad.Machine.Emission.{size-append}
use gad.Machine.Fetch.{Stands}
use gad.Machine.Run.{Runs, Runs-trans, frame, arrive, Stands-left, Stands-right}
use gad.Machine.Jumps.{HasWord, Jumps, end_at}
use gad.Machine.Branches.{run-true, run-false}
use gad.Machine.Values.{IsPlain, run-value, depth_pos}
use gad.Machine.Compile.{compile}
use gad.Machine.Compiled.{compiled}
use gad.Emitter.{Emitter}

module _ {ℓ} {V : Type ℓ} (o : Objects V) (constants locals : List V) (insts : List ℕ) where
  jump_not_nil-HasWord : HasWord op_jump_not_nil
  unfolding instruction_bytes make_instruction operand_bytes layout opcode_operands
  jump_not_nil-HasWord a = refl

  jump_nil-HasWord : HasWord op_jump_nil
  unfolding instruction_bytes make_instruction operand_bytes layout opcode_operands
  jump_nil-HasWord a = refl

  jump_not_nil-Jumps :
      (v : V) (b : Bool)
      → o.equals_nil v ≡ b
      → Jumps o constants locals insts op_jump_not_nil v b (λ s. s) (λ s. v ∷ s)
  unfolding execute pop
  jump_not_nil-Jumps v b t f s target e w = ground (arith, e, w, t)

  jump_nil-Jumps :
      (v : V) (b : Bool)
      → o.equals_nil v ≡ not b
      → Jumps o constants locals insts op_jump_nil v b (λ s. v ∷ s) (λ s. v ∷ s)
  unfolding execute pop
  jump_nil-Jumps v b t f s target e w = ground (arith, e, w, t)

  -- A piece behind the code of an expression with a value.
  behind :
      (e : Expr) (y : ℕ → Code) (p : Code) (d : ℕ) (s s' : List V) (v : V) (r : Result String V)
      → depth e ≤ d
      → IsPlain o constants locals e
      → value o constants locals e ≡ ok v
      → (let x = expr_code e (size p) in
          Stands insts p (x ++ y (size p + size x))
          → size p + size (x ++ y (size p + size x)) < 65536
          → length locals + length s + d ≤ 2048
          → (Stands insts (p ++ x) (y (size (p ++ x)))
              → size (p ++ x) + size (y (size (p ++ x))) < 65536
              → Runs o constants insts
                  (frame locals (size (p ++ x)) (v ∷ s))
                  (arrive locals (size (p ++ x) + size (y (size (p ++ x)))) s' r))
          → Runs o constants insts
              (frame locals (size p) s)
              (arrive locals (size p + size (x ++ y (size p + size x))) s' r))
  behind e y p d s s' v r less h is st b room next =
      let x = expr_code e (size p) in
      let tail = y (size p + size x) in
      let here : size (p ++ x) ≡ size p + size x = size-append p x in
      let end : size (p ++ x) + size (y (size (p ++ x))) ≡ size p + size (x ++ tail) =
        ap (λ n. n + size (y n)) here ∙ omega (arith, size-append x tail) in
      let second =
        next
          (subst (λ n. Stands insts (p ++ x) (y n)) (sym here)
            (Stands-right o constants locals insts p x tail st))
          (omega (arith, end)) in
      let left =
        run-value o constants locals insts e h p s
          (Stands-left o constants locals insts p x tail st) (omega (arith, size-append x tail))
          (omega arith) in
      Runs-trans o constants insts
        (subst
          (λ t.
            Runs o constants insts (frame locals (size p) s) (arrive locals (size p + size x) s t))
          is left)
        (subst
          (λ n.
            Runs o constants insts (frame locals n (v ∷ s))
              (arrive locals (size p + size (x ++ tail)) s' r))
          here
          (end_at o constants locals insts (frame locals (size (p ++ x)) (v ∷ s))
            (size (p ++ x) + size (y (size (p ++ x)))) (size p + size (x ++ tail)) s' r end second))

  run-cond_null :
      (pos : ℕ) (e t f : Expr) (v : V) (p : Code) (s : List V)
      → IsPlain o constants locals e
      → IsPlain o constants locals t
      → IsPlain o constants locals f
      → value o constants locals e ≡ ok v
      → Stands insts p (expr_code (Expression.cond_null pos e t f) (size p))
      → size p + size (expr_code (Expression.cond_null pos e t f) (size p)) < 65536
      → length locals + length s + depth (Expression.cond_null pos e t f) ≤ 2048
      → Runs o constants insts (frame locals (size p) s) (
          arrive locals
            (size p + size (expr_code (Expression.cond_null pos e t f) (size p)))
            (if o.equals_nil v then s else v ∷ s)
            (if o.equals_nil v then value o constants locals t else value o constants locals f))
  unfolding expr_code depth
  run-cond_null pos e t f v p s he ht hf is st b room = elim (Bool-cases (o.equals_nil v)) [
    | inl y ↦ rw y (
        behind e (λ n. branch_code op_jump_not_nil n (expr_code t) (expr_code f)) p
          (depth (Expression.cond_null pos e t f)) s s v _ (omega arith) he is st b room
          (λ st' b'.
            run-true o constants locals insts op_jump_not_nil jump_not_nil-HasWord (expr_code t)
              (expr_code f) v _ _ (λ t'. t') (λ t'. v ∷ t') (depth t) (depth f)
              (run-value o constants locals insts t ht) (run-value o constants locals insts f hf)
              (p ++ expr_code e (size p)) s st' b' (jump_not_nil-Jumps v true y) (depth_pos t)
              (omega arith)))
    | inr n ↦ rw n (
        behind e (λ n'. branch_code op_jump_not_nil n' (expr_code t) (expr_code f)) p
          (depth (Expression.cond_null pos e t f)) s (v ∷ s) v _ (omega arith) he is st b room
          (λ st' b'.
            run-false o constants locals insts op_jump_not_nil jump_not_nil-HasWord (expr_code t)
              (expr_code f) v _ _ (λ t'. t') (λ t'. v ∷ t') (depth t) (depth f)
              (run-value o constants locals insts t ht) (run-value o constants locals insts f hf)
              (p ++ expr_code e (size p)) s st' b' (jump_not_nil-Jumps v false n) (omega arith)))
  ]

  run-cond_not_null :
      (pos : ℕ) (e t f : Expr) (v : V) (p : Code) (s : List V)
      → IsPlain o constants locals e
      → IsPlain o constants locals t
      → IsPlain o constants locals f
      → value o constants locals e ≡ ok v
      → Stands insts p (expr_code (Expression.cond_not_null pos e t f) (size p))
      → size p + size (expr_code (Expression.cond_not_null pos e t f) (size p)) < 65536
      → length locals + length s + depth (Expression.cond_not_null pos e t f) ≤ 2048
      → Runs o constants insts (frame locals (size p) s) (
          arrive locals
            (size p + size (expr_code (Expression.cond_not_null pos e t f) (size p)))
            (v ∷ s)
            (if o.equals_nil v then value o constants locals f else value o constants locals t))
  unfolding expr_code depth
  run-cond_not_null pos e t f v p s he ht hf is st b room = elim (Bool-cases (o.equals_nil v)) [
    | inl y ↦ rw y (
        behind e (λ n. branch_code op_jump_nil n (expr_code t) (expr_code f)) p
          (depth (Expression.cond_not_null pos e t f)) s (v ∷ s) v _ (omega arith) he is st b room
          (λ st' b'.
            run-false o constants locals insts op_jump_nil jump_nil-HasWord (expr_code t)
              (expr_code f) v _ _ (λ t'. v ∷ t') (λ t'. v ∷ t') (depth t) (depth f)
              (run-value o constants locals insts t ht) (run-value o constants locals insts f hf)
              (p ++ expr_code e (size p)) s st' b' (jump_nil-Jumps v false y) (omega arith)))
    | inr n ↦ rw n (
        behind e (λ n'. branch_code op_jump_nil n' (expr_code t) (expr_code f)) p
          (depth (Expression.cond_not_null pos e t f)) s (v ∷ s) v _ (omega arith) he is st b room
          (λ st' b'.
            run-true o constants locals insts op_jump_nil jump_nil-HasWord (expr_code t)
              (expr_code f) v _ _ (λ t'. v ∷ t') (λ t'. v ∷ t') (depth t) (depth f)
              (run-value o constants locals insts t ht) (run-value o constants locals insts f hf)
              (p ++ expr_code e (size p)) s st' b' (jump_nil-Jumps v true n) (depth_pos t)
              (omega arith)))
  ]

module _ {ℓ} {V : Type ℓ} (o : Objects V) (constants locals : List V) (pos q : ℕ) (e t f : Expr)
    (v : V) (c : Emitter) (p : Code) (accepted : IsAccepted e × IsAccepted t × IsAccepted f)
    (he : IsPlain o constants locals e) (ht : IsPlain o constants locals t)
    (hf : IsPlain o constants locals f) (is : value o constants locals e ≡ ok v)
    (at : c.instructions ≡ encode p) where
  -- For `e == nil ? t : f`, where the three expressions are accepted, in range and without conditions
  -- that test for nil, and `e` has the value `v`, `Compile` does not fail, and as long as the
  -- instructions end below 2^16 and the stack has room, the machine that runs what it emitted leaves
  -- the value of `t` when `v` is nil, and when it is not the value of `f` above `v`, which stays on the
  -- stack; or throws the error of that branch.
  pub cond_null-leaves :
      (c' : Emitter) × ((compile (cond_expr pos (Expression.is_null q e) t f) c ≡ some c')
        × ((after : Code) (s : List V)
            → length c'.instructions < 65536
            → length locals + length s + depth (Expression.cond_null pos e t f) ≤ 2048
            → Runs o constants
                (c'.instructions ++ encode after)
                (frame locals (length c.instructions) s)
                (arrive locals (length c'.instructions) (if o.equals_nil v then s else v ∷ s) (
                  if o.equals_nil v
                  then value o constants locals t
                  else value o constants locals f))))
  unfolding cond_expr
  cond_null-leaves =
      compiled o constants locals (Expression.cond_null pos e t f) c p
        (depth (Expression.cond_null pos e t f)) (λ s. if o.equals_nil v then s else v ∷ s) _
        accepted at
        (λ insts s st b room.
          run-cond_null o constants locals insts pos e t f v p s he ht hf is st b room)

  -- Under the same conditions what `Compile` emits for `e != nil ? t : f` leaves the value of `f` when
  -- `v` is nil, and of `t` when it is not, above the value `v` of `e`, which stays on the stack in both
  -- cases; or throws the error of that branch. The expressions are accepted, in range and without
  -- conditions that test for nil, the instructions end below 2^16 and the stack has room.
  pub cond_not_null-leaves :
      (c' : Emitter) × ((compile (cond_expr pos (Expression.not_null q e) t f) c ≡ some c')
        × ((after : Code) (s : List V)
            → length c'.instructions < 65536
            → length locals + length s + depth (Expression.cond_not_null pos e t f) ≤ 2048
            → Runs o constants
                (c'.instructions ++ encode after)
                (frame locals (length c.instructions) s)
                (arrive locals (length c'.instructions) (v ∷ s) (
                  if o.equals_nil v
                  then value o constants locals f
                  else value o constants locals t))))
  unfolding cond_expr
  cond_not_null-leaves =
      compiled o constants locals (Expression.cond_not_null pos e t f) c p
        (depth (Expression.cond_not_null pos e t f)) (λ s. v ∷ s) _ accepted at
        (λ insts s st b room.
          run-cond_not_null o constants locals insts pos e t f v p s he ht hf is st b room)
