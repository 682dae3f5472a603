-- ===== src/Parser/Steps.antt =====
-- The steps of the parser, each with the fuel that it takes: `From n p r` says that with at least `n`
-- units of fuel the result is `r`.
use gad.Prelude.{
  ℕ, zero, suc, ◌+◌, ◌≤◌, ◌<◌, ◌≡◌, refl, ap, ◌∙◌, Bool, true, false, arith, if◌then◌else◌, ltb,
}
use gad.Token.{precedence}
use gad.Parser.{Expr, Tokens, unary, cond}
use gad.Parser.Tokens.{head, next_token, is_prefix, is_question, is_colon}
use gad.Parser.Expressions.{
  Parsed, Parser, parsed, and_then, combine, parse_expr, parse_binary_expr, binary_loop,
  parse_cond_expr, parse_unary_expr, parse_primary_expr, primary_loop, parse_operand,
}

abbrev pub From {ℓ} : {A : Type ℓ} → ℕ → (ℕ → Parsed A) → Parsed A → Type ℓ
From n p r = (g : ℕ) → n ≤ g → p g ≡ r

-- More fuel than is needed.
pub weaken {ℓ} :
    {A : Type ℓ} {p : ℕ → Parsed A} {r : Parsed A} {n m : ℕ} → From n p r → n ≤ m → From m p r
weaken f h g k = f g (omega arith)

pub spend {ℓ} :
    {A : Type ℓ} (p : ℕ → Parsed A) (r : Parsed A) (n : ℕ)
    → ((g : ℕ) → n ≤ g → p (suc g) ≡ r)
    → From (suc n) p r
spend p r n k zero h = absurd (omega arith)
spend p r n k (suc g) h = k g (omega arith)

-- A call that returns `a` with `ts` left, then what uses it.
module _ {ℓ κ} {A : Type ℓ} {B : Type κ} where
  pub chain :
      (p : ℕ → Parsed A) (k : ℕ → A → Parser B) (a : A) (ts : Tokens) (r : Parsed B) (n : ℕ)
      → From n p (parsed a ts)
      → From n (λ g. k g a ts) r
      → (g : ℕ) → n ≤ g
      → and_then (p g) (k g) ≡ r
  unfolding and_then
  chain p k a ts r n f h g le = ap (λ x. and_then x (k g)) (f g le) ∙ h g le

-- Which branch of a test is taken.
pub when_true {ℓ} :
    {A : Type ℓ} (b : Bool) (x y : A) {z : A} → b ≡ true → x ≡ z → (if b then x else y) ≡ z
when_true b x y e h = rw e h

pub when_false {ℓ} :
    {A : Type ℓ} (b : Bool) (x y : A) {z : A} → b ≡ false → y ≡ z → (if b then x else y) ≡ z
when_false b x y e h = rw e h

module _ (n : ℕ) (ts : Tokens) (x : Expr) (rest : Tokens) (r : Parsed Expr) where
  pub binary-step :
      (p : ℕ)
      → From n (λ g. parse_unary_expr g ts) (parsed x rest)
      → From n (λ g. binary_loop g p x rest) r
      → From (suc n) (λ g. parse_binary_expr g p ts) r
  unfolding parse_expr
  binary-step p f h =
      spend (λ g. parse_binary_expr g p ts) r n
        (chain (λ g. parse_unary_expr g ts) (λ g. binary_loop g p) x rest r n f h)

  pub primary-step :
      From n (λ g. parse_operand g ts) (parsed x rest)
      → From n (λ g. primary_loop g x rest) r
      → From (suc n) (λ g. parse_primary_expr g ts) r
  unfolding parse_expr
  primary-step f h =
      spend (λ g. parse_primary_expr g ts) r n
        (chain (λ g. parse_operand g ts) (λ g. primary_loop g) x rest r n f h)

  pub expr-cond_step :
      is_question (head rest) ≡ true
      → From n (λ g. parse_binary_expr g 1 ts) (parsed x rest)
      → From n (λ g. parse_cond_expr g x rest) r
      → From (suc n) (λ g. parse_expr g ts) r
  unfolding parse_expr
  expr-cond_step q f h =
      spend (λ g. parse_expr g ts) r n
        (chain (λ g. parse_binary_expr g 1 ts)
          (λ g y more. if is_question (head more) then parse_cond_expr g y more else parsed y more)
          x rest r n f (λ g le. when_true (is_question (head rest)) _ _ q (h g le)))

module _ (n : ℕ) (ts : Tokens) (x : Expr) (rest : Tokens) where
  pub expr-step :
      is_question (head rest) ≡ false
      → From n (λ g. parse_binary_expr g 1 ts) (parsed x rest)
      → From (suc n) (λ g. parse_expr g ts) (parsed x rest)
  unfolding parse_expr
  expr-step q f =
      spend (λ g. parse_expr g ts) (parsed x rest) n
        (chain (λ g. parse_binary_expr g 1 ts)
          (λ g y more. if is_question (head more) then parse_cond_expr g y more else parsed y more)
          x rest (parsed x rest) n f (λ g le. when_false (is_question (head rest)) _ _ q refl))

  pub cond-step :
      (c e : Expr) (after : Tokens)
      → From n (λ g. parse_expr g (next_token ts)) (parsed x rest)
      → is_colon (head rest) ≡ true
      → From n (λ g. parse_expr g (next_token rest)) (parsed e after)
      → From (suc n) (λ g. parse_cond_expr g c ts) (parsed (cond c x e) after)
  unfolding parse_expr and_then
  cond-step c e after f q h =
      spend (λ g. parse_cond_expr g c ts) (parsed (cond c x e) after) n
        (chain (λ g. parse_expr g (next_token ts))
          (λ g t more.
            if is_colon (head more)
            then and_then (parse_expr g (next_token more)) (λ d end. parsed (cond c t d) end)
            else parsed (cond c t t) more)
          x rest (parsed (cond c x e) after) n f
          (λ g le.
            when_true (is_colon (head rest)) _ _ q
              (ap (λ d. and_then d (λ d end. parsed (cond c x d) end)) (h g le))))

  pub prefix-step :
      is_prefix (head ts) ≡ true
      → From n (λ g. parse_unary_expr g (next_token ts)) (parsed x rest)
      → From (suc n) (λ g. parse_unary_expr g ts) (parsed (unary (head ts) x) rest)
  unfolding parse_expr and_then
  prefix-step q f =
      spend (λ g. parse_unary_expr g ts) (parsed (unary (head ts) x) rest) n
        (λ g le.
          when_true (is_prefix (head ts)) _ _ q
            (ap (λ d. and_then d (λ y more. parsed (unary (head ts) y) more)) (f g le)))

module _ (n : ℕ) (ts : Tokens) (r : Parsed Expr) where
  pub unary-step :
      is_prefix (head ts) ≡ false
      → From n (λ g. parse_primary_expr g ts) r
      → From (suc n) (λ g. parse_unary_expr g ts) r
  unfolding parse_expr
  unary-step q f =
      spend (λ g. parse_unary_expr g ts) r n
        (λ g le. when_false (is_prefix (head ts)) _ _ q (f g le))

  pub loop-step :
      (p : ℕ) (x y : Expr) (rest : Tokens)
      → p ≤ precedence (head ts)
      → From n (λ g. parse_binary_expr g (precedence (head ts) + 1) (next_token ts)) (parsed y rest)
      → From n (λ g. binary_loop g p (combine (head ts) x y) rest) r
      → From (suc n) (λ g. binary_loop g p x ts) r
  unfolding parse_expr
  loop-step p x y rest le f h =
      spend (λ g. binary_loop g p x ts) r n
        (λ g k. when_false (ltb (precedence (head ts)) p) _ _ (ground arith) (
          chain (λ g. parse_binary_expr g (precedence (head ts) + 1) (next_token ts))
            (λ g y rest. binary_loop g p (combine (head ts) x y) rest) y rest r n f h g k))

pub loop-stop :
    (p : ℕ) (x : Expr) (ts : Tokens)
    → precedence (head ts) < p
    → From 1 (λ g. binary_loop g p x ts) (parsed x ts)
unfolding parse_expr
loop-stop p x ts h =
    spend (λ g. binary_loop g p x ts) (parsed x ts) 0
      (λ g k. when_true (ltb (precedence (head ts)) p) _ _ (ground arith) refl)
