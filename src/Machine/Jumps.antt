-- ===== src/Machine/Jumps.antt =====
-- The pieces of code with jumps, run.
use mathlib.Core.Path.{subst}
use gad.Prelude.{
  String, ℕ, ◌+◌, ◌<◌, ◌≤◌, ◌≡◌, refl, ap, ◌∙◌, Bool, true, false, some, List, [], ◌∷◌, ◌++◌,
  append-nil, length, if◌then◌else◌, arith,
}
use gad.Prelude.Bytes.{byte, high_byte}
use gad.Prelude.Result.{Result, ok}
use gad.Opcode.{Opcode, code, opcode_operands, op_jump}
use gad.Instruction.{make_instruction, operand_bytes}
use gad.Instruction.Cases.{layout}
use gad.Instruction.Stream.{Code, encode, instruction_bytes}
use gad.Machine.{Objects, Frame, word_at, execute, step}
use gad.Machine.Layout.{size, jump_code}
use gad.Machine.Emission.{size-append}
use gad.Machine.Fetch.{Stands, fetch-word}
use gad.Machine.Run.{Runs, stays, goes, frame, arrive, turned, Continues, Stands-left, Stands-right}

-- An instruction with one operand of two bytes.
abbrev pub HasWord : Opcode → Type 0
HasWord op = (a : ℕ) → instruction_bytes op (a ∷ []) ≡ code op ∷ high_byte a ∷ byte a ∷ []

pub size-HasWord : (op : Opcode) (a : ℕ) → HasWord op → size ((op, a ∷ []) ∷ []) ≡ 3
unfolding encode
size-HasWord op a h = ap length (append-nil (instruction_bytes op (a ∷ [])) ∙ h a)

pub jump-HasWord : HasWord op_jump
unfolding instruction_bytes make_instruction operand_bytes layout opcode_operands
jump-HasWord a = refl

module _ {ℓ} {V : Type ℓ} (o : Objects V) (constants locals : List V) (insts : List ℕ) where
  -- A piece of code that stands behind another one.
  pub enter :
      (d : ℕ) (y : ℕ → Code) (operands : List V) (r : Result String V) (p : Code) (n : ℕ)
      (s : List V)
      → Continues o constants locals insts d y operands r
      → size p ≡ n
      → Stands insts p (y n)
      → n + size (y n) < 65536
      → length locals + length (operands ++ s) + d ≤ 2048
      → Runs o constants insts (frame locals n (operands ++ s)) (arrive locals (n + size (y n)) s r)
  enter d y operands r p n s c e =
      subst
        (λ m.
          Stands insts p (y m)
          → m + size (y m) < 65536
          → length locals + length (operands ++ s) + d ≤ 2048
          → Runs o constants insts (frame locals m (operands ++ s))
              (arrive locals (m + size (y m)) s r))
        e (λ st b room. c p s st b room)

  pub end_at :
      (f : Frame V) (m n : ℕ) (s : List V) (r : Result String V)
      → m ≡ n
      → Runs o constants insts f (arrive locals m s r)
      → Runs o constants insts f (arrive locals n s r)
  end_at f m n s r e = subst (λ k. Runs o constants insts f (arrive locals k s r)) e

  -- What a conditional jump does with the value on top: go on with one stack, or jump with another.
  abbrev pub Jumps : Opcode → V → Bool → (List V → List V) → (List V → List V) → Type ℓ
  Jumps op v on after there =
      (f : Frame V) (s : List V) (target : ℕ)
      → f.stack ≡ v ∷ s
      → word_at insts f.ip ≡ some target
      → execute o constants insts op f
        ≡ some (
            ok (
              if on
              then record f { ip = f.ip + 3; stack = after s }
              else record f { ip = target; stack = there s }))

  module _ (op : Opcode) (word : HasWord op) where
    pub jump_turn :
        (p : Code) (target : ℕ) (v : V) (on : Bool) (after there : List V → List V) (s : List V)
        → Jumps op v on after there
        → Stands insts p ((op, target ∷ []) ∷ [])
        → target < 65536
        → length locals + length (if on then after s else there s) ≤ 2048
        → step o constants insts (frame locals (size p) (v ∷ s))
          ≡ some (
              ok
                (if on then frame locals (size p + 3) (after s) else frame locals target (there s)))
    jump_turn p target v true after there s turn st b room =
        let (run, word_is) = fetch-word o constants insts p op target st (word target) b in
        let f = frame locals (size p) (v ∷ s) in
        turned o constants locals insts op f (frame locals (size p + 3) (after s)) (run f refl)
          (turn f s target refl word_is) room
    jump_turn p target v false after there s turn st b room =
        let (run, word_is) = fetch-word o constants insts p op target st (word target) b in
        let f = frame locals (size p) (v ∷ s) in
        turned o constants locals insts op f (frame locals target (there s)) (run f refl)
          (turn f s target refl word_is) room

    pub continue-jump :
        (d dy : ℕ) (y : ℕ → Code) (v : V) (r : Result String V) (on : Bool)
        → dy ≤ d + 1
        → Jumps op v on (λ s. s) (λ s. v ∷ s)
        → Continues o constants locals insts dy y [] r
        → Continues o constants locals insts d
            (λ n. jump_code op n y)
            (v ∷ [])
            (if on then r else ok v)
    unfolding jump_code
    continue-jump d dy y v r true less turn c p s h b room =
        let inside = y (size p + 3) in
        let first : Code = (op, (size p + 3 + size inside) ∷ []) ∷ [] in
        let all : size (first ++ inside) ≡ 3 + size inside =
          size-append first inside
          ∙ ap (λ n. n + size inside) (size-HasWord op (size p + 3 + size inside) word) in
        let at : size (p ++ first) ≡ size p + 3 =
          size-append p first
          ∙ ap (λ n. size p + n) (size-HasWord op (size p + 3 + size inside) word) in
        goes
          (jump_turn p (size p + 3 + size inside) v true (λ t. t) (λ t. v ∷ t) s turn
            (Stands-left o constants locals insts p first inside h) (omega arith) (omega arith))
          (end_at _ (size p + 3 + size inside) _ s r (omega arith) (
            enter dy y [] r (p ++ first) (size p + 3) s c at
              (Stands-right o constants locals insts p first inside h) (omega arith) (omega arith)))
    continue-jump d dy y v r false less turn c p s h b room =
        let inside = y (size p + 3) in
        let first : Code = (op, (size p + 3 + size inside) ∷ []) ∷ [] in
        let all : size (first ++ inside) ≡ 3 + size inside =
          size-append first inside
          ∙ ap (λ n. n + size inside) (size-HasWord op (size p + 3 + size inside) word) in
        goes
          (jump_turn p (size p + 3 + size inside) v false (λ t. t) (λ t. v ∷ t) s turn
            (Stands-left o constants locals insts p first inside h) (omega arith) (omega arith))
          (end_at _ (size p + 3 + size inside) _ s (ok v) (omega arith) stays)
