-- ===== src/Emitter/Return.antt =====
-- The end of `Bytecode`: whatever was compiled, the main function ends with a return.
use gad.Prelude.{
  ℕ, zero, suc, ◌+◌, ◌<◌, ◌≡◌, ◌⊎◌, inl, inr, Bool-cases, not, ◌||◌, refl, sym, ap, ◌∙◌, true,
  false, some, List, [], ◌∷◌, ◌++◌, append_assoc, append-nil, arith, length, length-append, drop,
  ltb, lt→ltb, drop-suc-length, get_elem?, get_elem?-length,
}
use native.Mathlib.Numerals.{add-one}
use gad.Prelude.Result.{ok}
use gad.Opcode.{
  Opcode, code, of_code-code, opcode_operands, op_no_op, op_return, op_jump, op_jump_falsy,
  op_and_jump, op_or_jump, op_jump_not_nil,
}
use gad.Instruction.{make_instruction, operand_bytes}
use gad.Instruction.Cases.{layout}
use gad.Instruction.Roundtrip.{Encodable, truncate}
use gad.Instruction.Stream.{
  Code, IsCode, encode, instruction_bytes, instruction_bytes-Encodable, length-le-encode,
}
use gad.Emitter.{
  Emitter, emit, delete, track, tracked_jump, is_return, is_empty, scan_loop, bytecode,
}
use gad.Emitter.Patch.{encode-append}
use gad.Emitter.Positions.{emitted}

-- The operation of the last instruction, and `op` where there is none.
abbrev pub last_op : Opcode → Code → Opcode
last_op op [] = op
last_op op ((op', args) ∷ rest) = last_op op' rest

last_op-append :
    (op : Opcode) (prog : Code) (op' : Opcode) (args : List ℕ)
    → last_op op (prog ++ (op', args) ∷ []) ≡ op'
last_op-append op [] op' args = refl
last_op-append op ((o, a) ∷ prog) op' args = last_op-append o prog op' args

-- A jump that is kept has a target.
track-total :
    (op : Opcode) (args jumps : List ℕ)
    → Encodable op args
    → (j : List ℕ) × (track op (truncate (opcode_operands op) args) jumps ≡ some j)
unfolding track opcode_operands tracked_jump
track-total op_jump (a ∷ args) jumps h = (_, refl)
track-total op_jump [] jumps h = absurd (omega (arith, h.1))
track-total op_jump_falsy (a ∷ args) jumps h = (_, refl)
track-total op_jump_falsy [] jumps h = absurd (omega (arith, h.1))
track-total op_and_jump (a ∷ args) jumps h = (_, refl)
track-total op_and_jump [] jumps h = absurd (omega (arith, h.1))
track-total op_or_jump (a ∷ args) jumps h = (_, refl)
track-total op_or_jump [] jumps h = absurd (omega (arith, h.1))
track-total op_jump_not_nil (a ∷ args) jumps h = (_, refl)
track-total op_jump_not_nil [] jumps h = absurd (omega (arith, h.1))
track-total _ args jumps h = (jumps, refl)

scan-encode :
    (fuel : ℕ) (insts pre : List ℕ) (prog : Code) (i : ℕ) (last : Opcode) (jumps : List ℕ)
    → insts ≡ pre ++ encode prog
    → i ≡ length pre
    → length prog < fuel
    → IsCode prog
    → (j : List ℕ) × (scan_loop fuel insts i last jumps ≡ some (last_op last prog, j))
unfolding scan_loop encode
scan-encode zero insts pre prog i last jumps e p f h = absurd (omega arith)
scan-encode (suc fuel) insts pre [] i last jumps e p f h =
    (jumps, ground (arith, ap length e, length-append pre []))
scan-encode (suc fuel) insts pre ((op, args) ∷ rest) i last jumps e p f h =
    let b = instruction_bytes-Encodable op args h.0 in
    let whole : insts ≡ pre ++ code op ∷ (b.0 ++ encode rest) =
      e ∙ ap (λ t. pre ++ (t ++ encode rest)) b.1 in
    let t = track-total op args jumps h.0 in
    let ih =
      scan-encode fuel insts (pre ++ code op ∷ b.0) rest (i + length b.0 + 1) op (delete i t.0)
        (whole ∙ sym (append_assoc pre (code op ∷ b.0) (encode rest)))
        (omega (arith, length-append pre (code op ∷ b.0))) (omega arith) h.1 in
    let more : ltb i (length insts) ≡ true =
      lt→ltb i (length insts)
        (omega (arith, ap length whole, length-append pre (code op ∷ (b.0 ++ encode rest)))) in
    let here : get_elem? insts i ≡ some (code op) =
      rw (whole, p) (get_elem?-length pre (b.0 ++ encode rest) (code op)) in
    let after : drop (i + 1) insts ≡ b.0 ++ encode rest =
      rw (add-one i, whole, p) (drop-suc-length pre (b.0 ++ encode rest) (code op)) in
    (ih.0, ground (arith, more, here, of_code-code op, after, b.2 (encode rest), t.1, ih.1))

is_return-eq : (op : Opcode) → is_return op ≡ true → op ≡ op_return
unfolding is_return
is_return-eq op_return e = refl
is_return-eq _ e = absurd (ground arith)

return_bytes : make_instruction op_return (0 ∷ []) ≡ ok (code op_return ∷ 0 ∷ [])
unfolding make_instruction layout operand_bytes opcode_operands
return_bytes = refl

return_encode : encode ((op_return, 0 ∷ []) ∷ []) ≡ code op_return ∷ 0 ∷ []
unfolding encode instruction_bytes make_instruction layout operand_bytes opcode_operands
return_encode = refl

abbrev Ends : Emitter → Code → Emitter → Code → Type 0
Ends c prog c' tail =
    (bytecode c ≡ some c')
    × (c'.instructions ≡ encode (prog ++ tail))
    × (last_op op_no_op (prog ++ tail) ≡ op_return)
    × ((tail ≡ []) ⊎ (tail ≡ (op_return, 0 ∷ []) ∷ []))

module _ (c : Emitter) (prog : Code) (j : List ℕ) (e : c.instructions ≡ encode prog)
    (s : scan_loop (length c.instructions + 1) c.instructions 0 op_no_op []
      ≡ some (last_op op_no_op prog, j)) where
  Ends-as_is :
      (not (is_return (last_op op_no_op prog)) || not (is_empty j)) ≡ false → Ends c prog c []
  Ends-as_is t = (
    unfold bytecode in ground (arith, s, t),
    e ∙ ap encode (sym (append-nil prog)),
    ap (last_op op_no_op) (append-nil prog)
        ∙ is_return-eq (last_op op_no_op prog) (ground (arith, t)),
    inl refl,
  )

  Ends-emitted :
      (not (is_return (last_op op_no_op prog)) || not (is_empty j)) ≡ true
      → Ends c prog (emitted c 0 (code op_return ∷ 0 ∷ [])) ((op_return, 0 ∷ []) ∷ [])
  Ends-emitted t = (
    unfold bytecode emit in ground (arith, s, t, return_bytes),
    ap (λ b. b ++ code op_return ∷ 0 ∷ []) e
        ∙ sym (encode-append prog _ ∙ ap (◌++◌ (encode prog)) return_encode),
    last_op-append op_no_op prog op_return (0 ∷ []),
    inr refl,
  )

-- When the buffer holds any sequence of encodable instructions, `Bytecode` does not panic; the
-- instructions that it hands over are that sequence, followed by at most a return with no value,
-- and the last of them is a return.
pub bytecode-ends_return :
    (c : Emitter) (prog : Code)
    → c.instructions ≡ encode prog
    → IsCode prog
    → (c' : Emitter) × (tail : Code) × ((bytecode c ≡ some c')
        × (c'.instructions ≡ encode (prog ++ tail))
        × (last_op op_no_op (prog ++ tail) ≡ op_return)
        × ((tail ≡ []) ⊎ (tail ≡ (op_return, 0 ∷ []) ∷ [])))
bytecode-ends_return c prog e h =
    let s =
      scan-encode (length c.instructions + 1) c.instructions [] prog 0 op_no_op [] e refl
        (omega (arith, ap length e, length-le-encode prog h)) h in
    elim (Bool-cases (not (is_return (last_op op_no_op prog)) || not (is_empty s.0))) [
      | inl t ↦ (_, _, Ends-emitted c prog s.0 e s.1 t)
      | inr t ↦ (_, _, Ends-as_is c prog s.0 e s.1 t)
    ]
