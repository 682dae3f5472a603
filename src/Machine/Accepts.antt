-- ===== src/Machine/Accepts.antt =====
-- What the compiler takes: an expression that it compiles is accepted.
use gad.Prelude.{
  ℕ, ◌≡◌, refl, Bool, true, false, Option, none, some, [], ◌∷◌, length, arith, if◌then◌else◌,
}
use gad.Prelude.Result.{>>=-eq-some}
use gad.Token.{Token}
use gad.Opcode.{Opcode, op_jump}
use gad.Emitter.{Emitter, emit, change_operand}
use gad.Machine.Expression
use gad.Machine.Expression.{Expr, IsAccepted, is_other, is_arithmetic, is_unary}
use gad.Machine.Compile.{compile, emit_operator, jump_over, branches}

operator-some :
    (b : Bool) (c : Emitter) (p : ℕ) (op : Opcode) (tok : Token) (c' : Emitter)
    → emit_operator b c p op tok ≡ some c'
    → b ≡ true
unfolding emit_operator
operator-some true c p op tok c' h = refl
operator-some false c p op tok c' h = ground arith

-- The code between a jump and its target was compiled.
jump_over-some :
    (c : Emitter) (p : ℕ) (op : Opcode) (between : Emitter → Option Emitter) (c' : Emitter)
    → jump_over c p op between ≡ some c'
    → (a : Emitter) × (b : Emitter) × (between a ≡ some b)
unfolding jump_over
jump_over-some c p op between c' h =
    let (e, _, k) = >>=-eq-some (emit c p op (0 ∷ [])) _ h in
    let (d, inside, _) = >>=-eq-some (between e.0) _ k in (e.0, d, inside)

branches-some :
    (c : Emitter) (p : ℕ) (op : Opcode) (on_true on_false : Emitter → Option Emitter) (c' : Emitter)
    → branches c p op on_true on_false ≡ some c'
    → ((a : Emitter) × (b : Emitter) × (on_true a ≡ some b))
      × ((a : Emitter) × (b : Emitter) × (on_false a ≡ some b))
unfolding branches
branches-some c p op on_true on_false c' h =
    let (j, _, k) = >>=-eq-some (emit c p op (0 ∷ [])) _ h in
    let (c1, when_true, k1) = >>=-eq-some (on_true j.0) _ k in
    let (j', _, k2) = >>=-eq-some (emit c1 p op_jump (0 ∷ [])) _ k1 in
    let (c2, _, k3) = >>=-eq-some (change_operand j'.0 j.1 (length j'.0.instructions ∷ [])) _ k2 in
    let (c3, when_false, _) = >>=-eq-some (on_false c2) _ k3 in
    ((j.0, c1, when_true), (c2, c3, when_false))

other-some :
    (b : Bool) (code : Option Emitter) (c' : Emitter)
    → (if b then code else none) ≡ some c'
    → (b ≡ true) × (code ≡ some c')
other-some true code c' h = (refl, h)
other-some false code c' h = ground arith

pub compile-IsAccepted : (e : Expr) (c c' : Emitter) → compile e c ≡ some c' → IsAccepted e
unfolding compile
compile-IsAccepted (Expression.constant q i) c c' h = tt
compile-IsAccepted (Expression.local q i) c c' h = tt
compile-IsAccepted (Expression.bool q b) c c' h = tt
compile-IsAccepted (Expression.nil q) c c' h = tt
compile-IsAccepted (Expression.binary q tok l r) c c' h =
    let (c1, left, k) = >>=-eq-some (compile l c) _ h in
    let (c2, right, k') = >>=-eq-some (compile r c1) _ k in
    (
      operator-some (is_arithmetic tok) c2 q _ tok c' k',
      compile-IsAccepted l c c1 left,
      compile-IsAccepted r c1 c2 right,
    )
compile-IsAccepted (Expression.equal q l r) c c' h =
    let (c1, left, k) = >>=-eq-some (compile l c) _ h in
    let (c2, right, k') = >>=-eq-some (compile r c1) _ k in
    (compile-IsAccepted l c c1 left, compile-IsAccepted r c1 c2 right)
compile-IsAccepted (Expression.not_equal q l r) c c' h =
    let (c1, left, k) = >>=-eq-some (compile l c) _ h in
    let (c2, right, k') = >>=-eq-some (compile r c1) _ k in
    (compile-IsAccepted l c c1 left, compile-IsAccepted r c1 c2 right)
compile-IsAccepted (Expression.logical q j l r) c c' h =
    let (c1, left, k) = >>=-eq-some (compile l c) _ h in
    let (a, b, right) = jump_over-some c1 q _ (compile r) c' k in
    (compile-IsAccepted l c c1 left, compile-IsAccepted r a b right)
compile-IsAccepted (Expression.unary q tok e) c c' h =
    let (c1, inside, k) = >>=-eq-some (compile e c) _ h in
    (operator-some (is_unary tok) c1 q _ tok c' k, compile-IsAccepted e c c1 inside)
compile-IsAccepted (Expression.is_null q e) c c' h =
    let (c1, inside, k) = >>=-eq-some (compile e c) _ h in compile-IsAccepted e c c1 inside
compile-IsAccepted (Expression.not_null q e) c c' h =
    let (c1, inside, k) = >>=-eq-some (compile e c) _ h in compile-IsAccepted e c c1 inside
compile-IsAccepted (Expression.cond q e t f) c c' h =
    let (own, h') = other-some (is_other e) _ c' h in
    let (c1, test, k) = >>=-eq-some (compile e c) _ h' in
    let ((a, b, when_true), (a', b', when_false)) =
      branches-some c1 q _ (compile t) (compile f) c' k in
    (
      own,
      compile-IsAccepted e c c1 test,
      compile-IsAccepted t a b when_true,
      compile-IsAccepted f a' b' when_false,
    )
compile-IsAccepted (Expression.cond_bool q true t f) c c' h = compile-IsAccepted t c c' h
compile-IsAccepted (Expression.cond_bool q false t f) c c' h = compile-IsAccepted f c c' h
compile-IsAccepted (Expression.cond_null q e t f) c c' h =
    let (c1, test, k) = >>=-eq-some (compile e c) _ h in
    let ((a, b, when_true), (a', b', when_false)) =
      branches-some c1 q _ (compile t) (compile f) c' k in
    (
      compile-IsAccepted e c c1 test,
      compile-IsAccepted t a b when_true,
      compile-IsAccepted f a' b' when_false,
    )
compile-IsAccepted (Expression.cond_not_null q e t f) c c' h =
    let (c1, test, k) = >>=-eq-some (compile e c) _ h in
    let ((a, b, when_true), (a', b', when_false)) =
      branches-some c1 q _ (compile t) (compile f) c' k in
    (
      compile-IsAccepted e c c1 test,
      compile-IsAccepted t a b when_true,
      compile-IsAccepted f a' b' when_false,
    )
