-- ===== src/Machine/Run.antt =====
-- Runs of the machine, and how the code of an expression composes: pieces of code that take
-- operands off the stack and leave one value.
use mathlib.Core.Path.{subst}
use gad.Prelude.{
  String, ℕ, ◌+◌, ◌<◌, ◌≤◌, ◌≡◌, sym, ap, ◌∙◌, some, List, [], ◌∷◌, ◌++◌, append_assoc, length,
  arith,
}
use gad.Prelude.Result.{Result, ok, err}
use gad.Instruction.Stream.{Code, encode}
use gad.Machine.{Objects, Frame, execute, within, step}
use gad.Opcode.{Opcode}
use gad.Machine.Expression.{and_then}
use gad.Machine.Layout.{size}
use gad.Machine.Emission.{size-append}
use gad.Machine.Fetch.{Stands}

module _ {ℓ} {V : Type ℓ} (o : Objects V) (constants : List V) (insts : List ℕ) where
  -- Some turns of the loop, to a frame or to an error that is thrown.
  pub data Runs : Frame V → Result String (Frame V) → Type ℓ where
    stays : {f : Frame V} → Runs f (ok f)
    fails : {f : Frame V} {e : String} → step o constants insts f ≡ some (err e) → Runs f (err e)
    goes :
        {f f' : Frame V} {r : Result String (Frame V)}
        → step o constants insts f ≡ some (ok f')
        → Runs f' r
        → Runs f r

  pub Runs-trans :
      {f g : Frame V} {r : Result String (Frame V)} → Runs f (ok g) → Runs g r → Runs f r
  Runs-trans stays k = k
  Runs-trans (goes e h) k = goes e (Runs-trans h k)

module _ {ℓ} {V : Type ℓ} where
  abbrev pub frame : List V → ℕ → List V → Frame V
  frame locals ip stack = record { ip = ip; locals = locals; stack = stack }

  -- The value on top, at the end of the code; or the error.
  abbrev pub arrive : List V → ℕ → List V → Result String V → Result String (Frame V)
  arrive locals ip stack (ok v) = ok (frame locals ip (v ∷ stack))
  arrive locals ip stack (err e) = err e

module _ {ℓ} {V : Type ℓ} (o : Objects V) (constants locals : List V) (insts : List ℕ) where
  -- A turn that leaves the stack within its bounds.
  pub turned :
      (op : Opcode) (f f' : Frame V)
      → step o constants insts f ≡ within (execute o constants insts op f)
      → execute o constants insts op f ≡ some (ok f')
      → length f'.locals + length f'.stack ≤ 2048
      → step o constants insts f ≡ some (ok f')
  unfolding within
  turned op f f' run does room = run ∙ rw does (ground (arith, room))

  -- Wherever the code stands, with these operands on top of a stack and `d` free cells above them, it
  -- leaves the result instead of them and is at its end. A jump reaches no further than two bytes say.
  abbrev pub Continues : ℕ → (ℕ → Code) → List V → Result String V → Type ℓ
  Continues d x operands r =
      (p : Code) (s : List V)
      → Stands insts p (x (size p))
      → size p + size (x (size p)) < 65536
      → length locals + length (operands ++ s) + d ≤ 2048
      → Runs o constants insts (frame locals (size p) (operands ++ s))
          (arrive locals (size p + size (x (size p))) s r)

  pub Stands-left : (p x y : Code) → Stands insts p (x ++ y) → Stands insts p x
  Stands-left p x y h = (y ++ h.0, h.1 ∙ ap (λ t. encode (p ++ t)) (append_assoc x y h.0))

  pub Stands-right : (p x y : Code) → Stands insts p (x ++ y) → Stands insts (p ++ x) y
  Stands-right p x y h = (
    h.0,
    h.1
        ∙ ap (λ t. encode (p ++ t)) (append_assoc x y h.0)
        ∙ ap encode (sym (append_assoc p x (y ++ h.0))),
  )

  pub continue-then :
      (d d₁ d₂ : ℕ) (x y : ℕ → Code) (operands : List V) (r : Result String V)
      (k : V → Result String V)
      → d₁ ≤ d
      → d₂ + 1 ≤ d
      → Continues d₁ x [] r
      → ((v : V) → Continues d₂ y (v ∷ operands) (k v))
      → Continues d (λ b. x b ++ y (b + size (x b))) operands (and_then r k)
  unfolding and_then
  continue-then d d₁ d₂ x y operands (err e) k first then_ cx cy p s h b room =
      let left = x (size p) in
      let right = y (size p + size left) in
      cx p (operands ++ s) (Stands-left p left right h) (omega (arith, size-append left right))
        (omega arith)
  continue-then d d₁ d₂ x y operands (ok v) k first then_ cx cy p s h b room =
      let left = x (size p) in
      let right = y (size p + size left) in
      let here : size (p ++ left) ≡ size p + size left = size-append p left in
      let end : size (p ++ left) + size (y (size (p ++ left))) ≡ size p + size (left ++ right) =
        ap (λ n. n + size (y n)) here ∙ omega (arith, size-append left right) in
      let second =
        cy v (p ++ left) s
          (subst (λ n. Stands insts (p ++ left) (y n)) (sym here) (Stands-right p left right h))
          (omega (arith, end)) (omega arith) in
      Runs-trans o constants insts
        (cx p (operands ++ s) (Stands-left p left right h) (omega (arith, size-append left right))
          (omega arith))
        (subst
          (λ n.
            Runs o constants insts (frame locals n (v ∷ (operands ++ s)))
              (arrive locals (size p + size (left ++ right)) s (k v)))
          here
          (subst
            (λ n.
              Runs o constants insts (frame locals (size (p ++ left)) (v ∷ (operands ++ s)))
                (arrive locals n s (k v)))
            end second))
