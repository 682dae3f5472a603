-- ===== src/Parser/Claims.antt =====
-- What each function of the parser does with a printed expression and tokens behind it, and how the
-- ones follow from the others.
use gad.Prelude.{ℕ, ◌+◌, ◌≤◌, ◌≡◌, false, ◌++◌, arith}
use gad.Token.{precedence}
use gad.Parser.{
  Expr, Bound, Tokens, operand, nil_lit, name_lit, paren, unary, binary, cond, selector,
  nullish_selector, index, slice, no_bound, bound,
}
use gad.Parser.Tokens.{head, suffix_of, none_left, is_question, is_lambda}
use gad.Parser.Expressions.{
  Parsed, parsed, parse_expr, parse_binary_expr, binary_loop, parse_unary_expr, parse_primary_expr,
  primary_loop,
}
use gad.Parser.Printer.{print, level, IsParse}
use gad.Parser.Steps.{From, weaken, binary-step, expr-step, unary-step, loop-stop}
use gad.Parser.Suffixes.{primary_loop-stop}
use gad.Parser.Starts.{starts_operand→prefix, print-starts_operand}

-- The fuel that an expression takes.
unfoldable mutual
  pub cost : Expr → ℕ
  cost (operand tok text) = 2
  cost nil_lit = 2
  cost (name_lit text) = 2
  cost (paren e) = cost e + 7
  cost (unary tok x) = cost x + 7
  cost (binary op l r) = cost l + cost r + 5
  cost (cond c t e) = cost c + cost t + cost e + 5
  cost (selector x s) = cost x + cost s + 1
  cost (nullish_selector x s) = cost x + cost s + 1
  cost (index x i) = cost x + cost i + 7
  cost (slice x low high) = cost x + cost_bound low + cost_bound high + 13

  pub cost_bound : Bound → ℕ
  cost_bound no_bound = 0
  cost_bound (bound e) = cost e

-- The next token does not go on with an operand.
abbrev pub Stops : Tokens → Type 0
Stops ts = (suffix_of (head ts) ≡ none_left) × (is_lambda (head ts) ≡ false)

-- The next token does not go on with an expression.
abbrev pub Ends : Tokens → Type 0
Ends ts = Stops ts × (precedence (head ts) ≡ 0) × (is_question (head ts) ≡ false)

abbrev pub Primary : Expr → Type 0
Primary e =
    (n : ℕ) (ts : Tokens) (r : Parsed Expr)
    → is_lambda (head ts) ≡ false
    → From n (λ g. primary_loop g e ts) r
    → From (n + cost e) (λ g. parse_primary_expr g (print e ++ ts)) r

abbrev pub Unary : Expr → Type 0
Unary e =
    (ts : Tokens)
    → Stops ts
    → From (cost e + 2) (λ g. parse_unary_expr g (print e ++ ts)) (parsed e ts)

abbrev pub Binary : Expr → Type 0
Binary e =
    (p n : ℕ) (ts : Tokens) (r : Parsed Expr)
    → p ≤ level e
    → Stops ts
    → precedence (head ts) ≤ level e
    → From n (λ g. binary_loop g p e ts) r
    → From (n + cost e + 3) (λ g. parse_binary_expr g p (print e ++ ts)) r

abbrev pub Full : Expr → Type 0
Full e =
    (ts : Tokens) → Ends ts → From (cost e + 5) (λ g. parse_expr g (print e ++ ts)) (parsed e ts)

-- All that hold for an expression of its level.
pub record Reads (e : Expr) : Type 0 where
  pub as_primary : 10 ≤ level e → Primary e
  pub as_unary : 9 ≤ level e → Unary e
  pub as_binary : 1 ≤ level e → Binary e
  pub as_full : Full e

Primary→Unary : (e : Expr) → IsParse e → 10 ≤ level e → Primary e → Unary e
Primary→Unary e h l reads ts s =
    weaken
      (unary-step (1 + cost e) (print e ++ ts) (parsed e ts)
        (starts_operand→prefix (head (print e ++ ts)) (print-starts_operand e h l ts))
        (reads 1 ts (parsed e ts) s.1 (primary_loop-stop e ts s.0)))
      (omega arith)

Unary→Binary : (e : Expr) → Unary e → Binary e
Unary→Binary e reads p n ts r le s low h =
    weaken
      (binary-step (n + cost e + 2) (print e ++ ts) e ts r p (weaken (reads ts s) (omega arith))
        (weaken h (omega arith)))
      (omega arith)

Binary→Full : (e : Expr) → 1 ≤ level e → Binary e → Full e
Binary→Full e l reads ts (s, low, q) =
    weaken
      (expr-step (1 + cost e + 3) (print e ++ ts) e ts q (
        reads 1 1 ts (parsed e ts) l s (omega (arith, low))
          (loop-stop 1 e ts (omega (arith, low)))))
      (omega arith)

pub Binary→Reads : (e : Expr) → 1 ≤ level e → level e ≤ 8 → Binary e → Reads e
Binary→Reads e l k reads = record {
  as_primary = λ h. absurd (omega arith);
  as_unary = λ h. absurd (omega arith);
  as_binary = λ h. reads;
  as_full = Binary→Full e l reads;
}

pub Unary→Reads : (e : Expr) → level e ≡ 9 → Unary e → Reads e
Unary→Reads e l reads =
    let both = Unary→Binary e reads in
    record {
      as_primary = λ h. absurd (omega (arith, l));
      as_unary = λ h. reads;
      as_binary = λ h. both;
      as_full = Binary→Full e (omega (arith, l)) both;
    }

pub Primary→Reads : (e : Expr) → IsParse e → level e ≡ 10 → Primary e → Reads e
Primary→Reads e h l reads =
    let one = Primary→Unary e h (omega (arith, l)) reads in
    let both = Unary→Binary e one in
    record {
      as_primary = λ h. reads;
      as_unary = λ h. one;
      as_binary = λ h. both;
      as_full = Binary→Full e (omega (arith, l)) both;
    }
