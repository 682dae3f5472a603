-- ===== src/Instruction.antt =====
-- compiler.go and opcodes.go: the bytes of an instruction, written by `MakeInstruction`, read by
-- `ReadOperands` and walked by `IterateInstructions`. Operands are numbers, as the compiler emits
-- them: indexes, counts and positions. What indexes past the end of a slice panics, here `none`.
pub mod Cases
pub mod Roundtrip
pub mod Stream
use gad.Prelude.{
  ℕ, zero, suc, ◌+◌, Bool, true, false, Option, none, some, List, [], ◌∷◌, ◌++◌, ltb, ◌==◌,
  if◌then◌else◌, length, get_elem?, drop,
}
use gad.Prelude.Bytes.{byte, high_byte, word}
use gad.Prelude.Result.{Result, ok, err, ◌>>=◌}
use gad.Opcode.{Opcode, code, of_code, opcode_operands}
use Cases.{Layout, layout}

pub data MakeError : Type 0 where
  operand_count : ℕ → ℕ → MakeError
  unknown_opcode : MakeError
  index_out_of_range : MakeError

-- The bytes after the code. The operands that a case does not index are ignored, and a missing
-- one would be an index out of range.
unfoldable pub operand_bytes : Layout → List ℕ → Result MakeError (List ℕ)
operand_bytes Layout.word (a ∷ _) = ok (high_byte a ∷ byte a ∷ [])
operand_bytes Layout.word_word (a ∷ b ∷ _) = ok (high_byte a ∷ byte a ∷ high_byte b ∷ byte b ∷ [])
operand_bytes Layout.word_byte (a ∷ b ∷ _) = ok (high_byte a ∷ byte a ∷ byte b ∷ [])
operand_bytes Layout.byte_byte (a ∷ b ∷ _) = ok (byte a ∷ byte b ∷ [])
operand_bytes Layout.byte (a ∷ _) = ok (byte a ∷ [])
operand_bytes Layout.nothing args = ok []
operand_bytes Layout.unknown args = err unknown_opcode
operand_bytes _ _ = err index_out_of_range

with_code : Opcode → Result MakeError (List ℕ) → Result MakeError (List ℕ)
with_code op (ok bytes) = ok (code op ∷ bytes)
with_code op (err e) = err e

unfoldable pub make_instruction : Opcode → List ℕ → Result MakeError (List ℕ)
unfolding with_code
make_instruction op args =
    let operands = opcode_operands op in
    if length operands == length args
    then with_code op (operand_bytes (layout op) args)
    else err (operand_count (length operands) (length args))

-- The case of one width in the loop of `ReadOperands`: other widths append nothing.
operand_at : ℕ → List ℕ → ℕ → Option (List ℕ)
operand_at width ins offset =
    if width == 1
    then (do b ← get_elem? ins offset; some (b ∷ []))
    else if width == 2
    then (do lo ← get_elem? ins (offset + 1); hi ← get_elem? ins offset; some (word hi lo ∷ []))
    else some []

read_loop : List ℕ → List ℕ → List ℕ → ℕ → Option (List ℕ × ℕ)
read_loop [] ins operands offset = some (operands, offset)
read_loop (width ∷ widths) ins operands offset = do
  operand ← operand_at width ins offset
  read_loop widths ins (operands ++ operand) (offset + width)

-- The slice that the caller lends for the operands is emptied first, so it is not an argument.
unfoldable pub read_operands : List ℕ → List ℕ → Option (List ℕ × ℕ)
unfolding read_loop operand_at
read_operands num_operands ins = read_loop num_operands ins [] 0

-- One round of `IterateInstructions` at position `i`: the call back runs on the state `s` and says
-- whether to go on. The result has the next position and whether the loop was left by `break`.
module _ {S : Type 0} (fn : S → ℕ → Opcode → List ℕ → ℕ → S × Bool) (insts : List ℕ) where
  unfoldable pub visit : ℕ → S → Option (S × Bool × ℕ)
  visit i s = do
    b ← get_elem? insts i
    op ← of_code b
    found ← read_operands (opcode_operands op) (drop (i + 1) insts)
    let after = fn s i op found.0 found.1
    some (after.0, after.1, i + found.1 + 1)

  -- `none` also where the fuel runs out, one unit for each instruction.
  unfoldable pub iterate_loop : ℕ → ℕ → S → Option S
  iterate_loop zero i s = none
  iterate_loop (suc fuel) i s = elim (ltb i (length insts)) [
    | false ↦ some s
    | true ↦ do r ← visit i s; elim r.1 [ false ↦ some r.0 | true ↦ iterate_loop fuel r.2 r.0 ]
  ]

  unfoldable pub iterate_instructions : S → Option S
  unfolding iterate_loop visit
  iterate_instructions s = iterate_loop (length insts + 1) 0 s
