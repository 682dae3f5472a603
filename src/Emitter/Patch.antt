-- ===== src/Emitter/Patch.antt =====
-- `changeOperand`: the compiler patches the target of a jump that it emitted.
use gad.Prelude.{
  ℕ, ◌≡◌, refl, sym, ap, ◌∙◌, Option, some, List, [], ◌∷◌, ◌++◌, append_assoc, arith, length,
  take-length, drop-length, get_elem?, get_elem?-length,
}
use gad.Opcode.{Opcode, code, of_code-code}
use gad.Instruction.Roundtrip.{Encodable, length-make_eq}
use gad.Instruction.Stream.{Code, encode, instruction_bytes, instruction_bytes-Encodable}
use gad.Emitter.{Emitter, copy, replace_instruction, change_operand}

pub encode-append : (p q : Code) → encode (p ++ q) ≡ encode p ++ encode q
unfolding encode
encode-append [] q = refl
encode-append ((op, args) ∷ p) q =
    ap (◌++◌ (instruction_bytes op args)) (encode-append p q)
    ∙ sym (append_assoc (instruction_bytes op args) (encode p) (encode q))

-- Copying over as many items replaces them.
copy-append : (xs ys rest : List ℕ) → length xs ≡ length ys → copy (xs ++ rest) ys ≡ ys ++ rest
unfolding copy
copy-append [] [] [] h = refl
copy-append [] [] (r ∷ rest) h = refl
copy-append [] (y ∷ ys) rest h = absurd (omega arith)
copy-append (x ∷ xs) [] rest h = absurd (omega arith)
copy-append (x ∷ xs) (y ∷ ys) rest h = ap (◌∷◌ y) (copy-append xs ys rest (omega arith))

-- The bytes of a sequence round one of its instructions.
encode-split :
    (p q : Code) (op : Opcode) (args body : List ℕ)
    → instruction_bytes op args ≡ code op ∷ body
    → encode (p ++ (op, args) ∷ q) ≡ encode p ++ code op ∷ (body ++ encode q)
encode-split p q op args body e =
    encode-append p ((op, args) ∷ q) ∙ (unfold encode in ap (λ t. encode p ++ (t ++ encode q)) e)

replaced :
    (c : Emitter) (pre old new rest : List ℕ)
    → c.instructions ≡ pre ++ (old ++ rest)
    → length old ≡ length new
    → (replace_instruction c (length pre) new).instructions ≡ pre ++ (new ++ rest)
unfolding replace_instruction
replaced c pre old new rest e n =
    rw (e, take-length pre (old ++ rest), drop-length pre (old ++ rest), copy-append old new rest n)

-- Patching an instruction that stands after the instructions `p` and before `q` with as many
-- operands as it takes does not panic, gives the bytes of the same sequence with the new operands
-- in place of the old, and leaves the source map as it was.
pub change_operand-encode :
    (c : Emitter) (p q : Code) (op : Opcode) (args args' : List ℕ)
    → c.instructions ≡ encode (p ++ (op, args) ∷ q)
    → Encodable op args
    → Encodable op args'
    → change_operand c (length (encode p)) args'
      ≡ some (record c { instructions = encode (p ++ (op, args') ∷ q) })
change_operand-encode c p q op args args' is old new =
    let b = instruction_bytes-Encodable op args old in
    let b' = instruction_bytes-Encodable op args' new in
    let whole = is ∙ encode-split p q op args b.0 b.1 in
    let same : length (code op ∷ b.0) ≡ length (code op ∷ b'.0) =
      length-make_eq op args _ b.3 ∙ sym (length-make_eq op args' _ b'.3) in
    let result =
      replaced c (encode p) (code op ∷ b.0) (code op ∷ b'.0) (encode q) whole same
      ∙ sym (encode-split p q op args' b'.0 b'.1) in
    let there : get_elem? c.instructions (length (encode p)) ≡ some (code op) =
      rw whole (get_elem?-length (encode p) (b.0 ++ encode q) (code op)) in
    unfold change_operand in
    rw (there, of_code-code op, b'.3)
      (ap {B = Option Emitter} (λ t. some (record c { instructions = t })) result)
