-- ===== src/Machine/Emission.antt =====
-- Emitting and patching the code of an expression gives just the code of `expr_code`.
use gad.Prelude.{
  ℕ, ◌+◌, ◌≡◌, refl, sym, ap, ◌∙◌, Option, some, List, [], ◌∷◌, ◌++◌, append_assoc, append-nil,
  length, length-append, arith,
}
use gad.Prelude.Result.{◌>>=◌}
use gad.Opcode.{Opcode, code, opcode_operands, op_jump}
use gad.Instruction.{make_instruction, operand_bytes}
use gad.Instruction.Cases.{layout}
use gad.Instruction.Roundtrip.{Encodable}
use gad.Instruction.Stream.{Code, encode, instruction_bytes, instruction_bytes-Encodable}
use gad.Emitter.{Emitter, emit, change_operand}
use gad.Emitter.Positions.{emitted}
use gad.Emitter.Patch.{encode-append, change_operand-encode}
use gad.Machine.Compile.{emit_last, jump_over}
use gad.Machine.Layout.{size, jump_code}

-- The emitter has the code `q` behind the code `p`.
abbrev pub Emits : Code → Code → Option Emitter → Type 0
Emits p q r = (c : Emitter) × ((r ≡ some c) × (c.instructions ≡ encode (p ++ q)))

-- A piece of the compiler that appends the code `q`, for the position where it stands.
abbrev pub Places : (Emitter → Option Emitter) → (ℕ → Code) → Type 0
Places run q = (c : Emitter) (p : Code) → c.instructions ≡ encode p → Emits p (q (size p)) (run c)

pub size-append : (p q : Code) → size (p ++ q) ≡ size p + size q
size-append p q = ap length (encode-append p q) ∙ length-append (encode p) (encode q)

pub emit-Encodable :
    (c : Emitter) (p : Code) (file_pos : ℕ) (op : Opcode) (args : List ℕ)
    → c.instructions ≡ encode p
    → Encodable op args
    → (c' : Emitter) × ((emit c file_pos op args ≡ some (c', size p))
        × (c'.instructions ≡ encode (p ++ (op, args) ∷ [])))
emit-Encodable c p file_pos op args is h =
    let b = instruction_bytes-Encodable op args h in
    let new = emitted c file_pos (code op ∷ b.0) in
    let last : encode ((op, args) ∷ []) ≡ code op ∷ b.0 =
      unfold encode in append-nil (instruction_bytes op args) ∙ b.1 in
    (
      new,
      (
        unfold emit in ground (arith, b.3, ap length is),
        ap (λ t. t ++ code op ∷ b.0) is
            ∙ ap (◌++◌ (encode p)) (sym last)
            ∙ sym (encode-append p ((op, args) ∷ [])),
      ),
    )

pub place-emit :
    (file_pos : ℕ) (op : Opcode) (args : List ℕ)
    → Encodable op args
    → Places (λ c. emit_last c file_pos op args) (λ b. (op, args) ∷ [])
unfolding emit_last
place-emit file_pos op args h c p is =
    let (c', q) = emit-Encodable c p file_pos op args is h in (c', (ground (arith, q.0), q.1))

pub place-seq :
    (f g : Emitter → Option Emitter) (q r : ℕ → Code)
    → Places f q
    → Places g r
    → Places (λ c. f c >>= g) (λ b. q b ++ r (b + size (q b)))
place-seq f g q r pf pg c p is =
    let (c1, e) = pf c p is in
    let (c2, d) = pg c1 (p ++ q (size p)) e.1 in
    (
      c2,
      (
        ground (arith, e.0, d.0),
        d.1
            ∙ ap (λ b. encode ((p ++ q (size p)) ++ r b)) (size-append p (q (size p)))
            ∙ ap encode (append_assoc p (q (size p)) (r (size p + size (q (size p))))),
      ),
    )

-- A jump has one operand and takes three bytes.
abbrev pub IsJump : Opcode → Type 0
IsJump op = (a : ℕ) → Encodable op (a ∷ []) × (size ((op, a ∷ []) ∷ []) ≡ 3)

-- A jump over some code, when its target is known.
pub patched :
    (c : Emitter) (p q : Code) (op : Opcode) (a : ℕ)
    → IsJump op
    → c.instructions ≡ encode (p ++ (op, 0 ∷ []) ∷ q)
    → (c' : Emitter) × ((change_operand c (size p) (a ∷ []) ≡ some c')
        × (c'.instructions ≡ encode (p ++ (op, a ∷ []) ∷ q)))
patched c p q op a j is =
    (_, (change_operand-encode c p q op (0 ∷ []) (a ∷ []) is (j 0).0 (j a).0, refl))

pub place-jump :
    (file_pos : ℕ) (op : Opcode) (between : Emitter → Option Emitter) (q : ℕ → Code)
    → IsJump op
    → Places between q
    → Places (λ c. jump_over c file_pos op between) (λ b. jump_code op b q)
unfolding jump_over jump_code
place-jump file_pos op between q j pb c p is =
    let (c1, e) = emit-Encodable c p file_pos op (0 ∷ []) is (j 0).0 in
    let (c2, d) = pb c1 (p ++ (op, 0 ∷ []) ∷ []) e.1 in
    let start : size (p ++ (op, 0 ∷ []) ∷ []) ≡ size p + 3 =
      size-append p ((op, 0 ∷ []) ∷ []) ∙ ap (λ n. size p + n) (j 0).1 in
    let inside : c2.instructions ≡ encode (p ++ (op, 0 ∷ []) ∷ q (size p + 3)) =
      d.1
      ∙ ap (λ b. encode ((p ++ (op, 0 ∷ []) ∷ []) ++ q b)) start
      ∙ ap encode (append_assoc p ((op, 0 ∷ []) ∷ []) (q (size p + 3))) in
    let end : length c2.instructions ≡ size p + 3 + size (q (size p + 3)) =
      ap length d.1
      ∙ size-append (p ++ (op, 0 ∷ []) ∷ []) (q (size (p ++ (op, 0 ∷ []) ∷ [])))
      ∙ ap (λ b. b + size (q b)) start in
    let (c3, r) = patched c2 p (q (size p + 3)) op (length c2.instructions) j inside in
    (
      c3,
      (
        ground (arith, e.0, d.0, r.0),
        r.1 ∙ ap (λ a. encode (p ++ (op, a ∷ []) ∷ q (size p + 3))) end,
      ),
    )

module _ (op : Opcode) (j : IsJump op) (p : Code) where
  -- The size of the code up to the end of what follows a jump.
  pub size-jump : (a : ℕ) (q : Code) → size (p ++ (op, a ∷ []) ∷ q) ≡ size p + 3 + size q
  size-jump a q =
      let first = size-append ((op, a ∷ []) ∷ []) q in
      omega (arith, size-append p ((op, a ∷ []) ∷ q), first, (j a).1)

  pub placed-after :
      (a : ℕ) (run : Emitter → Option Emitter) (q : ℕ → Code) (before : Code) (c : Emitter)
      → Places run q
      → c.instructions ≡ encode (p ++ (op, a ∷ []) ∷ before)
      → Emits p ((op, a ∷ []) ∷ (before ++ q (size p + 3 + size before))) (run c)
  placed-after a run q before c pr is =
      let (c', e) = pr c (p ++ (op, a ∷ []) ∷ before) is in
      (
        c',
        (
          e.0,
          e.1
              ∙ ap (λ b. encode ((p ++ (op, a ∷ []) ∷ before) ++ q b)) (size-jump a before)
              ∙ ap encode (append_assoc p ((op, a ∷ []) ∷ before) (q (size p + 3 + size before))),
        ),
      )

pub op_jump-IsJump : IsJump op_jump
unfolding opcode_operands encode instruction_bytes make_instruction operand_bytes layout
op_jump-IsJump a = ((λ e. cc, refl), refl)
