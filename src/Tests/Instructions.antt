-- ===== src/Tests/Instructions.antt =====
-- Small programs for the encoder of instructions and the emitter.
use gad.Prelude.{
  ℕ, ◌+◌, ◌<◌, ◌≤◌, ◌≡◌, ◌≢◌, ◌↔◌, ◌⊎◌, refl, Bool, true, false, none, some, List, [], ◌∷◌, ◌++◌,
  length,
}
use gad.Prelude.Int.{pos}
use gad.Prelude.Result.{ok, err}
use gad.Opcode.{
  Opcode, code, opcode_operands, op_no_op, op_constant, op_pop, op_return, op_text_writer,
  op_closure, op_jump_falsy,
}
use gad.Instruction.{MakeError, make_instruction, operand_bytes, iterate_instructions}
use gad.Instruction.Cases.{layout}
use gad.Instruction.Roundtrip.{Reads, Encodable, read-make, make_instruction_iff}
use gad.Instruction.Stream.{Code, IsCode, encode, walk, iterate_instructions-encode}
use gad.Emitter.{Emitter, emit, source_pos, change_operand, bytecode, update}
use gad.Emitter.Positions.{IsBounded, source_pos-emit}
use gad.Emitter.Patch.{change_operand-encode}
use gad.Emitter.Return.{last_op, bytecode-ends_return}

not_text : op_closure ≢ op_text_writer
not_text e = cc

read-make_example :
    (body : List ℕ) × (make_instruction op_closure (300 ∷ 7 ∷ []) ≡ ok (code op_closure ∷ body))
    × Reads (opcode_operands op_closure) (300 ∷ 7 ∷ []) body
read-make_example = read-make op_closure (300 ∷ 7 ∷ []) not_text (unfold opcode_operands in refl)

make_instruction_iff_example :
    ((bytes : List ℕ) × (make_instruction op_text_writer [] ≡ ok bytes))
    ↔ Encodable op_text_writer []
make_instruction_iff_example = make_instruction_iff op_text_writer []

closure_bytes : make_instruction op_closure (300 ∷ 7 ∷ []) ≡ ok (code op_closure ∷ 1 ∷ 44 ∷ 7 ∷ [])
unfolding make_instruction operand_bytes layout opcode_operands
closure_bytes = refl

text_writer_unknown : make_instruction op_text_writer [] ≡ err MakeError.unknown_opcode
unfolding make_instruction operand_bytes layout opcode_operands
text_writer_unknown = refl

-- A constant, a conditional jump over a pop, and a return.
abbrev sample : Code
sample = (op_constant, 2 ∷ []) ∷ (op_jump_falsy, 7 ∷ []) ∷ (op_pop, []) ∷ (op_return, 1 ∷ []) ∷ []

sample-IsCode : IsCode sample
unfolding opcode_operands
sample-IsCode = ((λ e. cc, refl), ((λ e. cc, refl), ((λ e. cc, refl), ((λ e. cc, refl), tt))))

-- The call back that counts, and stops at a pop.
abbrev count : ℕ → ℕ → Opcode → List ℕ → ℕ → ℕ × Bool
count n at op_pop operands offset = (n + 1, false)
count n at op operands offset = (n + 1, true)

iterate_instructions-encode_example :
    iterate_instructions count (encode sample) 0 ≡ some (walk count sample 0 0)
iterate_instructions-encode_example = iterate_instructions-encode count sample 0 sample-IsCode

abbrev emitter : Emitter
emitter = record { instructions = encode sample; source_map = λ k. none }

emitter-IsBounded : IsBounded emitter
emitter-IsBounded = record { bounded = λ k h. refl }

abbrev emitted_pop : Emitter × ℕ
emitted_pop = (
  record {
    instructions = encode sample ++ code op_pop ∷ [];
    source_map = update (λ k. none) (length (encode sample)) 12;
  },
  length (encode sample),
)

pop_emitted : emit emitter 12 op_pop [] ≡ some emitted_pop
unfolding emit make_instruction operand_bytes layout opcode_operands
pop_emitted = refl

source_pos-emit_example :
    (emitted_pop.1 ≡ length emitter.instructions)
    × ((ip : ℕ) → emitted_pop.1 ≤ ip → source_pos emitted_pop.0.source_map (pos ip) ≡ 12)
    × ((ip : ℕ)
        → ip < emitted_pop.1
        → source_pos emitted_pop.0.source_map (pos ip) ≡ source_pos emitter.source_map (pos ip))
    × IsBounded emitted_pop.0
source_pos-emit_example =
    source_pos-emit emitter 12 op_pop [] emitted_pop emitter-IsBounded pop_emitted

abbrev before : Code
before = (op_constant, 2 ∷ []) ∷ []

abbrev after : Code
after = (op_pop, []) ∷ (op_return, 1 ∷ []) ∷ []

jump-Encodable : (target : ℕ) → Encodable op_jump_falsy (target ∷ [])
unfolding opcode_operands
jump-Encodable target = (λ e. cc, refl)

change_operand-encode_example :
    change_operand emitter (length (encode before)) (9 ∷ [])
    ≡ some (record emitter { instructions = encode (before ++ (op_jump_falsy, 9 ∷ []) ∷ after) })
change_operand-encode_example =
    change_operand-encode emitter before after op_jump_falsy (7 ∷ []) (9 ∷ []) refl
      (jump-Encodable 7) (jump-Encodable 9)

bytecode-ends_return_example :
    (c' : Emitter) × (tail : Code) × ((bytecode emitter ≡ some c')
      × (c'.instructions ≡ encode (sample ++ tail))
      × (last_op op_no_op (sample ++ tail) ≡ op_return)
      × ((tail ≡ []) ⊎ (tail ≡ (op_return, 0 ∷ []) ∷ [])))
bytecode-ends_return_example = bytecode-ends_return emitter sample refl sample-IsCode
