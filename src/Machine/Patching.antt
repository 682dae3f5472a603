-- ===== src/Machine/Patching.antt =====
-- Emitting and patching the two branches of a condition.
use gad.Prelude.{
  ℕ, ◌+◌, ◌≡◌, sym, ap, ◌∙◌, Option, some, [], ◌∷◌, ◌++◌, append_assoc, length, arith,
}
use gad.Opcode.{Opcode, op_jump}
use gad.Instruction.Stream.{Code, encode}
use gad.Emitter.{Emitter, emit, change_operand}
use gad.Machine.Compile.{branches}
use gad.Machine.Layout.{size, branch_code}
use gad.Machine.Emission.{
  Places, IsJump, size-append, emit-Encodable, patched, size-jump, placed-after, op_jump-IsJump,
}

module _ (file_pos : ℕ) (op : Opcode) (j : IsJump op) (p : Code) where
  -- The code up to the jump behind the true branch, before its targets are known.
  abbrev TrueBranch : Emitter → (Emitter → Option Emitter) → Code → Type 0
  TrueBranch c run y =
      (c1 : Emitter) × (c2 : Emitter) × (c3 : Emitter) × ((emit c file_pos op (0 ∷ [])
          ≡ some (c1, size p))
        × (run c1 ≡ some c2)
        × (emit c2 file_pos op_jump (0 ∷ []) ≡ some (c3, size (p ++ (op, 0 ∷ []) ∷ y)))
        × (c3.instructions ≡ encode (p ++ (op, 0 ∷ []) ∷ (y ++ (op_jump, 0 ∷ []) ∷ []))))

  true_branch :
      (run : Emitter → Option Emitter) (on : ℕ → Code) (c : Emitter)
      → Places run on
      → c.instructions ≡ encode p
      → TrueBranch c run (on (size p + 3))
  true_branch run on c pt is =
      let y = on (size p + 3) in
      let (c1, e1) = emit-Encodable c p file_pos op (0 ∷ []) is (j 0).0 in
      let (c2, e2) = placed-after op j p 0 run on [] c1 pt e1.1 in
      let y_at : size p + 3 + size [] ≡ size p + 3 = unfold encode in omega arith in
      let is2 : c2.instructions ≡ encode (p ++ (op, 0 ∷ []) ∷ y) =
        e2.1 ∙ ap (λ b. encode (p ++ (op, 0 ∷ []) ∷ on b)) y_at in
      let (c3, e3) =
        emit-Encodable c2 (p ++ (op, 0 ∷ []) ∷ y) file_pos op_jump (0 ∷ []) is2
          (op_jump-IsJump 0).0 in
      (
        c1,
        c2,
        c3,
        (
          e1.0,
          e2.0,
          e3.0,
          e3.1 ∙ ap encode (append_assoc p ((op, 0 ∷ []) ∷ y) ((op_jump, 0 ∷ []) ∷ [])),
        ),
      )

  abbrev middle : Code → ℕ
  middle y = size p + 3 + size y + 3

  size-skip : (y : Code) → size p + 3 + size (y ++ (op_jump, 0 ∷ []) ∷ []) ≡ middle y
  size-skip y = omega (arith, size-append y ((op_jump, 0 ∷ []) ∷ []), (op_jump-IsJump 0).1)

  -- The size of all of it, with both targets.
  size-branches :
      (m : ℕ) (y n : Code)
      → size ((p ++ (op, m ∷ []) ∷ y) ++ (op_jump, 0 ∷ []) ∷ n) ≡ middle y + size n
  size-branches m y n = omega (
    arith,
    size-append (p ++ (op, m ∷ []) ∷ y) ((op_jump, 0 ∷ []) ∷ n),
    size-jump op j p m y,
    size-append ((op_jump, 0 ∷ []) ∷ []) n,
    (op_jump-IsJump 0).1,
  )

  abbrev FalseBranch : Emitter → (Emitter → Option Emitter) → Code → Code → Type 0
  FalseBranch c3 run y n =
      (c4 : Emitter) × (c5 : Emitter) × (c6 : Emitter) × ((change_operand c3 (size p)
            (length c3.instructions ∷ [])
          ≡ some c4)
        × (run c4 ≡ some c5)
        × (change_operand c5 (size (p ++ (op, 0 ∷ []) ∷ y)) (length c5.instructions ∷ []) ≡ some c6)
        × (c6.instructions
            ≡ encode (p ++ (op, middle y ∷ []) ∷ (y ++ (op_jump, (middle y + size n) ∷ []) ∷ n))))

  false_branch :
      (run : Emitter → Option Emitter) (off : ℕ → Code) (y : Code) (c3 : Emitter)
      → Places run off
      → c3.instructions ≡ encode (p ++ (op, 0 ∷ []) ∷ (y ++ (op_jump, 0 ∷ []) ∷ []))
      → FalseBranch c3 run y (off (middle y))
  false_branch run off y c3 pf is3 =
      let z : Code = y ++ (op_jump, 0 ∷ []) ∷ [] in
      let n = off (middle y) in
      let m_is : length c3.instructions ≡ middle y =
        ap length is3 ∙ size-jump op j p 0 z ∙ size-skip y in
      let (c4, e4) = patched c3 p z op (length c3.instructions) j is3 in
      let is4 : c4.instructions ≡ encode (p ++ (op, middle y ∷ []) ∷ z) =
        e4.1 ∙ ap (λ a. encode (p ++ (op, a ∷ []) ∷ z)) m_is in
      let (c5, e5) = placed-after op j p (middle y) run off z c4 pf is4 in
      let before : Code = p ++ (op, middle y ∷ []) ∷ y in
      let is5 : c5.instructions ≡ encode (before ++ (op_jump, 0 ∷ []) ∷ n) =
        e5.1
        ∙ ap (λ b. encode (p ++ (op, middle y ∷ []) ∷ (z ++ off b))) (size-skip y)
        ∙ ap (λ t. encode (p ++ (op, middle y ∷ []) ∷ t))
            (append_assoc y ((op_jump, 0 ∷ []) ∷ []) n)
        ∙ ap encode (sym (append_assoc p ((op, middle y ∷ []) ∷ y) ((op_jump, 0 ∷ []) ∷ n))) in
      let (c6, e6) = patched c5 before n op_jump (length c5.instructions) op_jump-IsJump is5 in
      let place : size (p ++ (op, 0 ∷ []) ∷ y) ≡ size before =
        size-jump op j p 0 y ∙ sym (size-jump op j p (middle y) y) in
      (
        c4,
        c5,
        c6,
        (
          e4.0,
          e5.0,
          ap (λ k. change_operand c5 k (length c5.instructions ∷ [])) place ∙ e6.0,
          e6.1
              ∙ ap (λ a. encode (before ++ (op_jump, a ∷ []) ∷ n))
                  (ap length is5 ∙ size-branches (middle y) y n)
              ∙ ap encode (
                  append_assoc p ((op, middle y ∷ []) ∷ y)
                    ((op_jump, (middle y + size n) ∷ []) ∷ n)),
        ),
      )

pub place-branches :
    (file_pos : ℕ) (op : Opcode) (on_true on_false : Emitter → Option Emitter) (on off : ℕ → Code)
    → IsJump op
    → Places on_true on
    → Places on_false off
    → Places (λ c. branches c file_pos op on_true on_false) (λ b. branch_code op b on off)
unfolding branches branch_code
place-branches file_pos op on_true on_false on off j pt pf c p is =
    let (c1, c2, c3, (e1, e2, e3, is3)) = true_branch file_pos op j p on_true on c pt is in
    let (c4, c5, c6, (e4, e5, e6, is6)) =
      false_branch file_pos op j p on_false off (on (size p + 3)) c3 pf is3 in
    (c6, (ground (arith, e1, e2, e3, e4, e5, e6), is6))
