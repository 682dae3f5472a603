-- ===== src/Machine/Compiled.antt =====
-- The compiler and the machine together, on expressions.
use mathlib.Core.Path.{subst}
use gad.Prelude.{
  ◌+◌, String, ℕ, ◌<◌, ◌≤◌, ◌≡◌, sym, ap, ◌∙◌, some, List, ◌++◌, append_assoc, length, arith,
}
use gad.Prelude.Result.{Result}
use gad.Instruction.Stream.{Code, encode}
use gad.Emitter.{Emitter}
use gad.Emitter.Patch.{encode-append}
use gad.Machine.{Objects}
use gad.Machine.Expression.{Expr, value, IsAccepted, depth}
use gad.Machine.Compile.{compile}
use gad.Machine.Layout.{size, expr_code}
use gad.Machine.Emission.{size-append}
use gad.Machine.Correct.{compile-expr_code}
use gad.Machine.Fetch.{Stands}
use gad.Machine.Run.{Runs, frame, arrive}
use gad.Machine.Jumps.{end_at}
use gad.Machine.Values.{IsPlain, run-value}

module _ {ℓ} {V : Type ℓ} (o : Objects V) (constants locals : List V) where
  -- What holds of runs of the code of an expression holds of what the compiler emits for it.
  pub compiled :
      (e : Expr) (c : Emitter) (p : Code) (d : ℕ) (after : List V → List V) (r : Result String V)
      → IsAccepted e
      → c.instructions ≡ encode p
      → ((insts : List ℕ) (s : List V)
          → Stands insts p (expr_code e (size p))
          → size p + size (expr_code e (size p)) < 65536
          → length locals + length s + d ≤ 2048
          → Runs o constants insts
              (frame locals (size p) s)
              (arrive locals (size p + size (expr_code e (size p))) (after s) r))
      → (c' : Emitter) × ((compile e c ≡ some c')
          × ((q : Code) (s : List V)
              → length c'.instructions < 65536
              → length locals + length s + d ≤ 2048
              → Runs o constants
                  (c'.instructions ++ encode q)
                  (frame locals (length c.instructions) s)
                  (arrive locals (length c'.instructions) (after s) r)))
  compiled e c p d after r ok is runs =
      let (c', placed) = (compile-expr_code e c p is).0 ok in
      let x = expr_code e (size p) in
      (
        c',
        (
          placed.0,
          λ q s b room.
              let insts = c'.instructions ++ encode q in
              let st : Stands insts p x = (
                q,
                ap (λ t. t ++ encode q) placed.1
                    ∙ sym (encode-append (p ++ x) q)
                    ∙ ap encode (append_assoc p x q),
              ) in
              let end : size p + size x ≡ length c'.instructions =
                omega (arith, size-append p x, ap length placed.1) in
              let start : size p ≡ length c.instructions = sym (ap length is) in
              subst
                (λ n.
                  Runs o constants insts (frame locals n s)
                    (arrive locals (length c'.instructions) (after s) r))
                start
                (end_at o constants locals insts (frame locals (size p) s) (size p + size x)
                  (length c'.instructions) (after s) r end (runs insts s st (omega arith) room)),
        ),
      )

  -- `Compile` of an expression that has only operators that the compiler takes, no pipe and no
  -- condition that tests for nil, with the other conditions in the case that is theirs, and whose
  -- constants, slots and tokens are in range and fit their operands, does not fail; and as long as the
  -- instructions end below 2^16 and the stack has the room that the expression needs, the machine,
  -- started on them where the code of the expression starts, with any operands and whatever code
  -- follows, comes to the end of that code with the value of the expression on top of the same
  -- operands, or throws the error that the evaluation of the expression ends with.
  pub compile-Runs :
      (e : Expr) (c : Emitter) (p : Code)
      → IsAccepted e
      → IsPlain o constants locals e
      → c.instructions ≡ encode p
      → (c' : Emitter) × ((compile e c ≡ some c')
          × ((q : Code) (s : List V)
              → length c'.instructions < 65536
              → length locals + length s + depth e ≤ 2048
              → Runs o constants
                  (c'.instructions ++ encode q)
                  (frame locals (length c.instructions) s)
                  (arrive locals (length c'.instructions) s (value o constants locals e))))
  compile-Runs e c p ok h is =
      compiled e c p (depth e) (λ s. s) (value o constants locals e) ok is
        (λ insts s st b room. run-value o constants locals insts e h p s st b room)
