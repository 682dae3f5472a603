-- ===== src/Instruction/Stream.antt =====
-- `IterateInstructions` over the bytes of a sequence of instructions.
use gad.Prelude.{
  ℕ, zero, suc, ◌+◌, ◌≤◌, ◌<◌, ◌≡◌, refl, sym, ap, ◌∙◌, Bool, true, some, List, [], ◌∷◌, ◌++◌,
  append_assoc, arith, length, length-append, ltb, lt→ltb, if◌then◌else◌, get_elem?-length,
  drop-suc-length, ◌-◌,
}
use native.Mathlib.Numerals.{add-one}
use gad.Prelude.Result.{ok, err}
use gad.Opcode.{Opcode, code, of_code-code, opcode_operands}
use gad.Instruction.{make_instruction, visit, iterate_loop, iterate_instructions}
use gad.Instruction.Roundtrip.{Encodable, Reads, truncate, read-make}

-- An operation with its operands, and a sequence of them that the encoder accepts.
abbrev pub Code : Type 0
Code = List (Opcode × List ℕ)

abbrev pub IsCode : Code → Type 0
IsCode [] = Unit
IsCode ((op, args) ∷ rest) = Encodable op args × IsCode rest

-- The bytes of one instruction, none where the encoder fails.
unfoldable pub instruction_bytes : Opcode → List ℕ → List ℕ
instruction_bytes op args = elim (make_instruction op args) [ ok bytes ↦ bytes | err _ ↦ [] ]

unfoldable pub encode : Code → List ℕ
encode [] = []
encode ((op, args) ∷ rest) = instruction_bytes op args ++ encode rest

-- What the encoder writes for an instruction that it accepts.
pub instruction_bytes-Encodable :
    (op : Opcode) (args : List ℕ)
    → Encodable op args
    → (body : List ℕ) × (instruction_bytes op args ≡ code op ∷ body)
      × Reads (opcode_operands op) args body
      × (make_instruction op args ≡ ok (code op ∷ body))
unfolding instruction_bytes
instruction_bytes-Encodable op args h =
    let r = read-make op args h.0 h.1 in (r.0, ground (arith, r.1), r.2, r.1)

-- The call back's answer: leave the walk, or go on with the new state.
unfoldable pub resume : {S : Type 0} → S × Bool → (S → S) → S
resume after next = if after.1 then next after.0 else after.0

module _ {S : Type 0} (fn : S → ℕ → Opcode → List ℕ → ℕ → S × Bool) where
  -- The run of the call back over the instructions, at the position of each.
  unfoldable pub walk : Code → ℕ → S → S
  walk [] pos s = s
  walk ((op, args) ∷ rest) pos s =
      let size = length (instruction_bytes op args) in
      resume (fn s pos op (truncate (opcode_operands op) args) (size - 1)) (walk rest (pos + size))

  visit-instruction :
      (insts pre : List ℕ) (op : Opcode) (args body rest : List ℕ) (i : ℕ) (s : S)
      → insts ≡ pre ++ code op ∷ (body ++ rest)
      → i ≡ length pre
      → Reads (opcode_operands op) args body
      → visit fn insts i s ≡ (
          let after : S × Bool = fn s i op (truncate (opcode_operands op) args) (length body) in
          some (after.0, after.1, i + length body + 1))
  unfolding visit
  visit-instruction insts pre op args body rest i s e p h = rw (
    e,
    p,
    get_elem?-length pre (body ++ rest) (code op),
    of_code-code op,
    add-one (length pre),
    drop-suc-length pre (body ++ rest) (code op),
    h rest,
  )

  walk-cons :
      (op : Opcode) (args body : List ℕ) (rest : Code) (i : ℕ) (s : S)
      → instruction_bytes op args ≡ code op ∷ body
      → walk ((op, args) ∷ rest) i s
        ≡ resume
            (fn s i op (truncate (opcode_operands op) args) (length body))
            (walk rest (i + length body + 1))
  unfolding walk
  walk-cons op args body rest i s e =
      let size : length (instruction_bytes op args) ≡ length body + 1 =
        omega (arith, ap length e) in
      let last : length body + 1 - 1 ≡ length body = omega arith in
      let next : i + (length body + 1) ≡ i + length body + 1 = omega arith in rw (size, last, next)

  -- Enough fuel is one unit more than the instructions.
  iterate-walk :
      (fuel : ℕ) (insts pre : List ℕ) (prog : Code) (i : ℕ) (s : S)
      → insts ≡ pre ++ encode prog
      → i ≡ length pre
      → length prog < fuel
      → IsCode prog
      → iterate_loop fn insts fuel i s ≡ some (walk prog i s)
  unfolding iterate_loop resume encode
  iterate-walk zero insts pre prog i s e p f h = absurd (omega arith)
  iterate-walk (suc fuel) insts pre [] i s e p f h =
      unfold walk in ground (arith, ap length e, length-append pre [])
  iterate-walk (suc fuel) insts pre ((op, args) ∷ rest) i s e p f h =
      let b = instruction_bytes-Encodable op args h.0 in
      let whole : insts ≡ pre ++ code op ∷ (b.0 ++ encode rest) =
        e ∙ ap (λ t. pre ++ (t ++ encode rest)) b.1 in
      let after : S × Bool = fn s i op (truncate (opcode_operands op) args) (length b.0) in
      let seen = visit-instruction insts pre op args b.0 (encode rest) i s whole p b.2 in
      let ih =
        iterate-walk fuel insts (pre ++ code op ∷ b.0) rest (i + length b.0 + 1) after.0
          (whole ∙ sym (append_assoc pre (code op ∷ b.0) (encode rest)))
          (omega (arith, length-append pre (code op ∷ b.0))) (omega arith) h.1 in
      let more : ltb i (length insts) ≡ true =
        lt→ltb i (length insts)
          (omega (arith, ap length whole, length-append pre (code op ∷ (b.0 ++ encode rest)))) in
      ground (arith, seen, more, ih, walk-cons op args b.0 rest i s b.1)

-- Every instruction takes a byte.
pub length-le-encode : (prog : Code) → IsCode prog → length prog ≤ length (encode prog)
unfolding encode
length-le-encode [] h = omega arith
length-le-encode ((op, args) ∷ rest) h =
    let b = instruction_bytes-Encodable op args h.0 in
    omega (
      arith,
      ap length b.1,
      length-append (instruction_bytes op args) (encode rest),
      length-le-encode rest h.1,
    )

-- On the bytes of any sequence of encodable instructions `IterateInstructions` never panics nor
-- runs out of fuel, and calls back exactly with these instructions, in order, each at the position
-- where its bytes start and with its operands as far as their widths hold them, until the call back
-- says to stop.
pub iterate_instructions-encode :
    {S : Type 0} (fn : S → ℕ → Opcode → List ℕ → ℕ → S × Bool) (prog : Code) (s : S)
    → IsCode prog
    → iterate_instructions fn (encode prog) s ≡ some (walk fn prog 0 s)
unfolding iterate_instructions
iterate_instructions-encode fn prog s h =
    iterate-walk fn (length (encode prog) + 1) (encode prog) [] prog 0 s refl refl
      (omega (arith, length-le-encode prog h)) h
