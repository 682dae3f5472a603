-- ===== src/Machine/Expression.antt =====
-- The expressions that are modelled, as the compiler tells them apart, and their values. Each has
-- its position first.
use gad.Prelude.{
  String, ℕ, ◌+◌, ◌≡◌, max, Bool, true, false, not, ◌&&◌, Option, none, some, List, [], ◌∷◌,
  get_elem?, if◌then◌else◌,
}
use gad.Prelude.Result.{Result, ok, err}
use gad.Token.{Token, token_code, is_binary_operator, is_one_of}
use gad.Machine.{Objects}

pub data Logical : Type 0 where
  and or coalesce : Logical

-- A literal is its place in the constants, and an identifier the slot that it was resolved to. A
-- condition that is a Boolean literal and one that tests for nil have cases of their own, which
-- `cond_expr` tells apart: `cond` has the others. Comparisons for
-- equality and logical operators have cases of their own too, and a pipe, which is compiled as a call,
-- has none: no token of `binary` is one of these. Parentheses are left out.
pub data Expr : Type 0 where
  constant : ℕ → ℕ → Expr
  local : ℕ → ℕ → Expr
  bool : ℕ → Bool → Expr
  nil : ℕ → Expr
  binary : ℕ → Token → Expr → Expr → Expr
  equal not_equal : ℕ → Expr → Expr → Expr
  logical : ℕ → Logical → Expr → Expr → Expr
  unary : ℕ → Token → Expr → Expr
  is_null not_null : ℕ → Expr → Expr
  cond : ℕ → Expr → Expr → Expr → Expr
  cond_bool : ℕ → Bool → Expr → Expr → Expr
  cond_null cond_not_null : ℕ → Expr → Expr → Expr → Expr

-- The conditional expression with a condition, by the tests of `compileCondExpr` on the condition.
unfoldable pub cond_expr : ℕ → Expr → Expr → Expr → Expr
cond_expr p (bool q b) t f = cond_bool p b t f
cond_expr p (is_null q e) t f = cond_null p e t f
cond_expr p (not_null q e) t f = cond_not_null p e t f
cond_expr p c t f = cond p c t f

unfoldable pub is_other : Expr → Bool
is_other (bool q b) = false
is_other (is_null q e) = false
is_other (not_null q e) = false
is_other e = true

-- The operators that stay `OpBinaryOp`, and the unary ones that stay `OpUnary`.
unfoldable pub is_arithmetic : Token → Bool
is_arithmetic tok =
    is_binary_operator tok && not (is_one_of tok (Token.equal ∷ Token.not_equal ∷ []))

unfoldable pub is_unary : Token → Bool
is_unary tok = is_one_of tok (Token.not ∷ Token.sub ∷ Token.xor ∷ Token.add ∷ [])

-- Every operator is one that the compiler takes, and a condition stands in the case that is its own.
abbrev pub IsAccepted : Expr → Type 0
IsAccepted (constant p i) = Unit
IsAccepted (local p i) = Unit
IsAccepted (bool p b) = Unit
IsAccepted (nil p) = Unit
IsAccepted (binary p tok l r) = (is_arithmetic tok ≡ true) × IsAccepted l × IsAccepted r
IsAccepted (equal p l r) = IsAccepted l × IsAccepted r
IsAccepted (not_equal p l r) = IsAccepted l × IsAccepted r
IsAccepted (logical p k l r) = IsAccepted l × IsAccepted r
IsAccepted (unary p tok e) = (is_unary tok ≡ true) × IsAccepted e
IsAccepted (is_null p e) = IsAccepted e
IsAccepted (not_null p e) = IsAccepted e
IsAccepted (cond p c t f) = (is_other c ≡ true) × IsAccepted c × IsAccepted t × IsAccepted f
IsAccepted (cond_bool p true t f) = IsAccepted t
IsAccepted (cond_bool p false t f) = IsAccepted f
IsAccepted (cond_null p e t f) = IsAccepted e × IsAccepted t × IsAccepted f
IsAccepted (cond_not_null p e t f) = IsAccepted e × IsAccepted t × IsAccepted f

-- How many cells of the stack the machine needs at most for the expression.
unfoldable pub depth : Expr → ℕ
depth (constant p i) = 1
depth (local p i) = 1
depth (bool p b) = 1
depth (nil p) = 1
depth (binary p tok l r) = max (depth l) (depth r + 1)
depth (equal p l r) = max (depth l) (depth r + 1)
depth (not_equal p l r) = max (depth l) (depth r + 1)
depth (logical p k l r) = max (depth l) (depth r)
depth (unary p tok e) = depth e
depth (is_null p e) = depth e
depth (not_null p e) = depth e
depth (cond p c t f) = max (depth c) (max (depth t) (depth f))
depth (cond_bool p b t f) = max (depth t) (depth f)
depth (cond_null p e t f) = max (depth e) (max (depth t) (depth f) + 1)
depth (cond_not_null p e t f) = max (depth e) (max (depth t) (depth f) + 1)

module _ {ℓ} {V : Type ℓ} where
  -- An error ends the evaluation.
  unfoldable pub and_then : Result String V → (V → Result String V) → Result String V
  and_then (ok v) next = next v
  and_then (err e) next = err e

module _ {ℓ} {V : Type ℓ} (o : Objects V) (constants locals : List V) where
  unfoldable pub goes_on : Logical → V → Bool
  goes_on and v = not (o.is_falsy v)
  goes_on or v = o.is_falsy v
  goes_on coalesce v = o.equals_nil v

  unfoldable pub found : Option V → Result String V
  found (some v) = ok v
  found none = err "index out of range"

  -- The value of an expression, by its meaning.
  unfoldable pub value : Expr → Result String V
  unfolding found
  value (constant p i) = found (get_elem? constants i)
  value (local p i) = found (get_elem? locals i)
  value (bool p b) = ok (o.of_bool b)
  value (nil p) = ok o.nil_value
  value (binary p tok l r) =
      let right = value r in
      and_then (value l) (λ a. and_then right (λ b. o.binary_op (token_code tok) a b))
  value (equal p l r) =
      let right = value r in
      and_then (value l) (λ a. and_then right (λ b. ok (o.of_bool (o.equal a b))))
  value (not_equal p l r) =
      let right = value r in
      and_then (value l) (λ a. and_then right (λ b. ok (o.of_bool (not (o.equal a b)))))
  value (logical p k l r) =
      let right = value r in and_then (value l) (λ a. if goes_on k a then right else ok a)
  value (unary p tok e) = and_then (value e) (λ a. o.unary_op (token_code tok) a)
  value (is_null p e) = and_then (value e) (λ a. ok (o.of_bool (o.is_nil a)))
  value (not_null p e) = and_then (value e) (λ a. ok (o.of_bool (not (o.is_nil a))))
  value (cond p c t f) =
      let yes = value t in
      let no = value f in and_then (value c) (λ a. if o.is_falsy a then no else yes)
  value (cond_bool p b t f) = let yes = value t in let no = value f in if b then yes else no
  value (cond_null p e t f) =
      let yes = value t in
      let no = value f in and_then (value e) (λ a. if o.equals_nil a then yes else no)
  value (cond_not_null p e t f) =
      let yes = value t in
      let no = value f in and_then (value e) (λ a. if o.equals_nil a then no else yes)
