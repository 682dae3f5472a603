-- ===== src/Emitter.antt =====
-- compiler.go: the instruction buffer of the compiler, `emit`, `addInstruction`, `changeOperand`,
-- `replaceInstruction` and the end of `Bytecode`, and `CompiledFunction.SourcePos` of bytecode.go.
-- The trace that these print is not modelled. `none` is a panic.
pub mod Patch
pub mod Positions
pub mod Return
use gad.Prelude.{
  ℕ, zero, suc, ◌+◌, Bool, true, false, ◌||◌, not, Option, none, some, List, [], ◌∷◌, ◌++◌, ltb,
  ◌==◌, if◌then◌else◌, length, get_elem?, take, drop,
}
use gad.Prelude.Int.{ℤ, pos, negsuc}
use gad.Prelude.Result.{Result, ok, err, ◌>>=◌}
use gad.Opcode.{
  Opcode, code, of_code, opcode_operands, op_no_op, op_return, op_jump, op_jump_falsy, op_and_jump,
  op_or_jump, op_jump_not_nil,
}
use gad.Instruction.{MakeError, make_instruction, read_operands}

-- The fields of `Compiler` that these functions touch. The source map is a map from positions in
-- the instructions to positions in the file set.
pub record Emitter : Type 0 where
  pub instructions : List ℕ
  pub source_map : ℕ → Option ℕ

unfoldable pub update : (ℕ → Option ℕ) → ℕ → ℕ → ℕ → Option ℕ
update m k v j = if k == j then some v else m j

-- `if err != nil { panic(err) }`
unfoldable pub or_panic : Result MakeError (List ℕ) → Option (List ℕ)
or_panic (ok bytes) = some bytes
or_panic (err e) = none

unfoldable pub add_instruction : Emitter → List ℕ → Emitter × ℕ
add_instruction c b = (record c { instructions = c.instructions ++ b }, length c.instructions)

-- `file_pos` is the position of the node, or 0 where there is none.
unfoldable pub emit : Emitter → ℕ → Opcode → List ℕ → Option (Emitter × ℕ)
unfolding or_panic add_instruction
emit c file_pos opcode operands = do
  inst ← or_panic (make_instruction opcode operands)
  let added = add_instruction c inst
  let c' = added.0
  some (record c' { source_map = update c'.source_map added.1 file_pos }, added.1)

-- Go's `copy` into a slice: as many items as both have.
unfoldable pub copy : List ℕ → List ℕ → List ℕ
copy [] src = []
copy (x ∷ dst) [] = x ∷ dst
copy (x ∷ dst) (y ∷ src) = y ∷ copy dst src

unfoldable pub replace_instruction : Emitter → ℕ → List ℕ → Emitter
replace_instruction c p inst = record c {
  instructions = take p c.instructions ++ copy (drop p c.instructions) inst;
}

unfoldable pub change_operand : Emitter → ℕ → List ℕ → Option Emitter
unfolding or_panic replace_instruction
change_operand c op_pos operand = do
  b ← get_elem? c.instructions op_pos
  op ← of_code b
  inst ← or_panic (make_instruction op operand)
  some (replace_instruction c op_pos inst)

-- The jumps whose targets `Bytecode` keeps: `OpJumpNil` is not among them.
unfoldable pub tracked_jump : Opcode → Bool
tracked_jump op_jump = true
tracked_jump op_jump_falsy = true
tracked_jump op_and_jump = true
tracked_jump op_or_jump = true
tracked_jump op_jump_not_nil = true
tracked_jump _ = false

-- The set of targets, a list without the deleted ones.
unfoldable pub delete : ℕ → List ℕ → List ℕ
delete i [] = []
delete i (p ∷ ps) = let rest = delete i ps in if p == i then rest else p ∷ rest

unfoldable pub track : Opcode → List ℕ → List ℕ → Option (List ℕ)
track op operands jump_pos =
    if tracked_jump op
    then (do target ← get_elem? operands 0; some (target ∷ jump_pos))
    else some jump_pos

-- The loop of `Bytecode`, with a unit of fuel for each instruction.
unfoldable pub scan_loop : ℕ → List ℕ → ℕ → Opcode → List ℕ → Option (Opcode × List ℕ)
scan_loop zero insts i last_op jump_pos = none
scan_loop (suc fuel) insts i last_op jump_pos = elim (ltb i (length insts)) [
  | false ↦ some (last_op, jump_pos)
  | true ↦ do
    b ← get_elem? insts i
    op ← of_code b
    found ← read_operands (opcode_operands op) (drop (i + 1) insts)
    jumps ← track op found.0 jump_pos
    scan_loop fuel insts (i + found.1 + 1) op (delete i jumps)
]

is_return : Opcode → Bool
is_return op_return = true
is_return _ = false

is_empty : List ℕ → Bool
is_empty [] = true
is_empty (x ∷ xs) = false

-- The instructions that `Bytecode` hands to the main function.
unfoldable pub bytecode : Emitter → Option Emitter
unfolding is_return is_empty
bytecode c = do
  r ← scan_loop (length c.instructions + 1) c.instructions 0 op_no_op []
  if not (is_return r.0) || not (is_empty r.1)
      then (do e ← emit c 0 op_return (0 ∷ []); some e.0)
      else some c

source_pos_at : (ℕ → Option ℕ) → ℕ → ℕ
source_pos_at m zero = elim (m 0) [ some p ↦ p | none ↦ 0 ]
source_pos_at m (suc ip) = elim (m (suc ip)) [ some p ↦ p | none ↦ source_pos_at m ip ]

-- `NoPos` is 0.
unfoldable pub source_pos : (ℕ → Option ℕ) → ℤ → ℕ
unfolding source_pos_at
source_pos m (pos ip) = source_pos_at m ip
source_pos m (negsuc n) = 0
