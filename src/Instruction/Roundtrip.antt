-- ===== src/Instruction/Roundtrip.antt =====
-- What `ReadOperands` makes of the bytes that `MakeInstruction` wrote.
use gad.Prelude.{
  ℕ, ◌+◌, ◌*◌, ◌%◌, ◌^◌, ◌<◌, ◌≡◌, ◌≢◌, sym, ◌∙◌, ◌↔◌, refl, ap, some, List, [], ◌∷◌, ◌++◌, arith,
  length,
}
use mathlib.Core.Path.{subst}
use gad.Prelude.Bytes.{byte, high_byte, word-high_byte}
use gad.Prelude.Result.{ok}
use gad.Opcode.{Opcode, code, opcode_operands, op_no_op, op_text_writer}
use gad.Instruction.Cases.{Layout, layout}
use gad.Instruction.{operand_bytes, make_instruction, read_operands}

-- The widths that a case of the switch writes.
abbrev widths : Layout → List ℕ
widths Layout.word = 2 ∷ []
widths Layout.word_word = 2 ∷ 2 ∷ []
widths Layout.word_byte = 2 ∷ 1 ∷ []
widths Layout.byte_byte = 1 ∷ 1 ∷ []
widths Layout.byte = 1 ∷ []
widths Layout.nothing = []
widths Layout.unknown = []

-- The table and the switch agree.
operands-layout : (op : Opcode) → opcode_operands op ≡ widths (layout op)
unfolding opcode_operands layout
operands-layout op_no_op = refl
operands-layout _ = refl

-- An operand as far as its width holds it.
abbrev pub truncate : List ℕ → List ℕ → List ℕ
truncate [] args = []
truncate (w ∷ ws) [] = []
truncate (w ∷ ws) (a ∷ args) = (a % 2 ^ (8 * w)) ∷ truncate ws args

abbrev pub Reads : List ℕ → List ℕ → List ℕ → Type 0
Reads ws args body =
    (rest : List ℕ) → read_operands ws (body ++ rest) ≡ some (truncate ws args, length body)

abbrev Written : Layout → List ℕ → Type 0
Written l args = (body : List ℕ) × (operand_bytes l args ≡ ok body) × Reads (widths l) args body

-- Whatever a case of the switch appends is read back.
Written-lem :
    (l : Layout) (args : List ℕ)
    → l ≢ Layout.unknown
    → length args ≡ length (widths l)
    → Written l args
unfolding operand_bytes read_operands
Written-lem Layout.word (a ∷ []) k n =
    (high_byte a ∷ byte a ∷ [], refl, λ rest. simp word-high_byte)
Written-lem Layout.word_word (a ∷ b ∷ []) k n =
    (high_byte a ∷ byte a ∷ high_byte b ∷ byte b ∷ [], refl, λ rest. simp word-high_byte)
Written-lem Layout.word_byte (a ∷ b ∷ []) k n =
    (high_byte a ∷ byte a ∷ byte b ∷ [], refl, λ rest. simp word-high_byte)
Written-lem Layout.byte_byte (a ∷ b ∷ []) k n = (byte a ∷ byte b ∷ [], refl, λ rest. refl)
Written-lem Layout.byte (a ∷ []) k n = (byte a ∷ [], refl, λ rest. refl)
Written-lem Layout.nothing [] k n = ([], refl, λ rest. refl)
Written-lem Layout.unknown args k n = absurd (k refl)
Written-lem _ args k n = absurd (omega arith)

layout-ne-unknown : (op : Opcode) → op ≢ op_text_writer → layout op ≢ Layout.unknown
unfolding layout
layout-ne-unknown op_text_writer h = absurd (h refl)
layout-ne-unknown _ h = λ e. cc

-- For every operation but `OpTextWriter`, and as many operands as its table entry has,
-- `MakeInstruction` gives the code and a body, and `ReadOperands` on that body, whatever bytes
-- follow, gives back each operand modulo what its width holds, and the length of the body.
pub read-make :
    (op : Opcode) (args : List ℕ)
    → op ≢ op_text_writer
    → length args ≡ length (opcode_operands op)
    → (body : List ℕ) × (make_instruction op args ≡ ok (code op ∷ body))
      × Reads (opcode_operands op) args body
unfolding make_instruction
read-make op args h n =
    let w : Written (layout op) args =
      Written-lem (layout op) args (layout-ne-unknown op h) (n ∙ ap length (operands-layout op)) in
    (w.0, ground (arith, w.1, n), subst (λ ws. Reads ws args w.0) (sym (operands-layout op)) w.2)

text_writer_fails : (args bytes : List ℕ) → make_instruction op_text_writer args ≢ ok bytes
unfolding make_instruction opcode_operands layout operand_bytes
text_writer_fails [] bytes e = ground arith
text_writer_fails (a ∷ args) bytes e = ground arith

not_text_writer :
    (op : Opcode) (args bytes : List ℕ) → make_instruction op args ≡ ok bytes → op ≢ op_text_writer
not_text_writer op args bytes e q =
    text_writer_fails args bytes (subst (λ o. make_instruction o args ≡ ok bytes) q e)

operand_count_lem :
    (op : Opcode) (args bytes : List ℕ)
    → make_instruction op args ≡ ok bytes
    → length args ≡ length (opcode_operands op)
unfolding make_instruction
operand_count_lem op args bytes e = ground arith

-- Every instruction has a first byte.
pub length-make :
    (op : Opcode) (args bytes : List ℕ) → make_instruction op args ≡ ok bytes → 0 < length bytes
unfolding make_instruction
length-make op args [] e = ground arith
length-make op args (b ∷ bytes) e = omega arith

abbrev total : List ℕ → ℕ
total [] = 0
total (w ∷ ws) = w + total ws

length-operand_bytes :
    (l : Layout) (args body : List ℕ)
    → operand_bytes l args ≡ ok body
    → length body ≡ total (widths l)
unfolding operand_bytes
length-operand_bytes Layout.word (a ∷ args) body e = ground (arith, e)
length-operand_bytes Layout.word_word (a ∷ b ∷ args) body e = ground (arith, e)
length-operand_bytes _ args body e = ground (arith, e)

-- The length of an instruction does not depend on the values of its operands.
pub length-make_eq :
    (op : Opcode) (args bytes : List ℕ)
    → make_instruction op args ≡ ok bytes
    → length bytes ≡ 1 + total (widths (layout op))
unfolding make_instruction
length-make_eq op args [] e = absurd (ground (arith, e))
length-make_eq op args (b ∷ bytes) e =
    ground (arith, e, length-operand_bytes (layout op) args bytes (ground (arith, e)))

abbrev pub Encodable : Opcode → List ℕ → Type 0
Encodable op args = (op ≢ op_text_writer) × (length args ≡ length (opcode_operands op))

-- `MakeInstruction` gives bytes exactly when the operation is not `OpTextWriter` and has as many
-- operands as its table entry.
pub make_instruction_iff :
    (op : Opcode) (args : List ℕ)
    → ((bytes : List ℕ) × (make_instruction op args ≡ ok bytes)) ↔ Encodable op args
make_instruction_iff op args = (
  λ m. (not_text_writer op args m.0 m.1, operand_count_lem op args m.0 m.1),
  λ h. let r = read-make op args h.0 h.1 in (code op ∷ r.0, r.1),
)
