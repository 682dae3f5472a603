-- ===== src/Machine/Pieces.antt =====
-- The pieces of the code of an expression, run.
use mathlib.Core.Path.{subst}
use gad.Prelude.{
  String, ℕ, ◌+◌, ◌<◌, ◌≤◌, ◌≡◌, refl, sym, ap, ◌∙◌, some, List, [], ◌∷◌, ◌++◌, append-nil, length,
  length-append, get_elem?, arith,
}
use gad.Prelude.Result.{Result, ok, err}
use gad.Opcode.{Opcode, code, opcode_operands, op_constant, op_get_local, op_binary_op, op_unary}
use gad.Instruction.{make_instruction, operand_bytes}
use gad.Instruction.Cases.{layout}
use gad.Instruction.Stream.{encode, instruction_bytes}
use gad.Machine.{Objects, Frame, execute, within, step, with_value, pop, pop_two}
use gad.Machine.Layout.{size}
use gad.Machine.Fetch.{fetch-bare, fetch-byte, fetch-word}
use gad.Machine.Run.{Runs, stays, fails, goes, frame, arrive, turned, Continues}

module _ {ℓ} {V : Type ℓ} (o : Objects V) (constants locals : List V) (insts : List ℕ) where
  -- One turn that ends in a value or an error.
  one_turn :
      (f : Frame V) (ip : ℕ) (s : List V) (r : Result String V)
      → f.locals ≡ locals
      → step o constants insts f ≡ within (some (with_value f ip s r))
      → length locals + length s + 1 ≤ 2048
      → Runs o constants insts f (arrive locals ip s r)
  unfolding with_value within
  one_turn f ip s (ok v) l e room =
      let h : length f.locals ≡ length locals = ap length l in
      goes (e ∙ ground (arith, h, room)) (
        subst
          (λ t.
            Runs o constants insts (record f { ip = ip; stack = v ∷ s })
              (ok (record { ip = ip; locals = t; stack = v ∷ s })))
          l stays)
  one_turn f ip s (err x) l e room = fails e

  pub continue-binary :
      (tok : ℕ) (a b : V)
      → tok < 256
      → Continues o constants locals insts 0
          (λ n. (op_binary_op, tok ∷ []) ∷ [])
          (b ∷ a ∷ [])
          (o.binary_op tok a b)
  unfolding encode instruction_bytes make_instruction operand_bytes layout opcode_operands execute
      pop_two
  continue-binary tok a b small p s h bound room =
      let (run, byte_is) = fetch-byte o constants insts p op_binary_op tok h refl small in
      let f = frame locals (size p) (b ∷ a ∷ s) in
      let turn : execute o constants insts op_binary_op f
          ≡ some (with_value f (size p + 2) s (o.binary_op tok a b)) =
        ground (arith, byte_is) in
      one_turn f (size p + 2) s (o.binary_op tok a b) refl (run f refl ∙ ap within turn)
        (omega arith)

  pub continue-unary :
      (tok : ℕ) (a : V)
      → tok < 256
      → Continues o constants locals insts 0
          (λ n. (op_unary, tok ∷ []) ∷ [])
          (a ∷ [])
          (o.unary_op tok a)
  unfolding encode instruction_bytes make_instruction operand_bytes layout opcode_operands execute
      pop
  continue-unary tok a small p s h bound room =
      let (run, byte_is) = fetch-byte o constants insts p op_unary tok h refl small in
      let f = frame locals (size p) (a ∷ s) in
      let turn : execute o constants insts op_unary f
          ≡ some (with_value f (size p + 2) s (o.unary_op tok a)) =
        ground (arith, byte_is) in
      one_turn f (size p + 2) s (o.unary_op tok a) refl (run f refl ∙ ap within turn) (omega arith)

  pub continue-constant :
      (i : ℕ) (v : V)
      → i < 65536
      → get_elem? constants i ≡ some v
      → Continues o constants locals insts 1 (λ n. (op_constant, i ∷ []) ∷ []) [] (ok v)
  unfolding encode instruction_bytes make_instruction operand_bytes layout opcode_operands execute
  continue-constant i v small e p s h bound room =
      let (run, word_is) = fetch-word o constants insts p op_constant i h refl small in
      let f = frame locals (size p) s in
      let f' = frame locals (size p + 3) (v ∷ s) in
      goes
        (turned o constants locals insts op_constant f f' (run f refl) (ground (arith, word_is, e))
          (omega arith))
        stays

  pub continue-local :
      (i : ℕ) (v : V)
      → i < 256
      → get_elem? locals i ≡ some v
      → Continues o constants locals insts 1 (λ n. (op_get_local, i ∷ []) ∷ []) [] (ok v)
  unfolding encode instruction_bytes make_instruction operand_bytes layout opcode_operands execute
  continue-local i v small e p s h bound room =
      let (run, byte_is) = fetch-byte o constants insts p op_get_local i h refl small in
      let f = frame locals (size p) s in
      let f' = frame locals (size p + 2) (v ∷ s) in
      goes
        (turned o constants locals insts op_get_local f f' (run f refl) (ground (arith, byte_is, e))
          (omega arith))
        stays

  -- An instruction without operands that turns the operands into one value.
  pub continue-bare :
      (d : ℕ) (op : Opcode) (operands : List V) (v : V)
      → 1 ≤ length operands + d
      → instruction_bytes op [] ≡ code op ∷ []
      → ((f : Frame V) (s : List V)
          → f.stack ≡ operands ++ s
          → execute o constants insts op f ≡ some (ok (record f { ip = f.ip + 1; stack = v ∷ s })))
      → Continues o constants locals insts d (λ n. (op, []) ∷ []) operands (ok v)
  continue-bare d op operands v some_room e turn p s h bound room =
      let run = fetch-bare o constants insts p op h e in
      let f = frame locals (size p) (operands ++ s) in
      let one : size ((op, []) ∷ []) ≡ 1 =
        unfold encode in ap length (append-nil (instruction_bytes op []) ∙ e) in
      let f' = frame locals (size p + 1) (v ∷ s) in
      goes
        (turned o constants locals insts op f f' (run f refl) (turn f s refl)
          (omega (arith, length-append operands s)))
        (subst
          (λ n.
            Runs o constants insts (frame locals (size p + 1) (v ∷ s))
              (ok (frame locals (size p + n) (v ∷ s))))
          (sym one) stays)
