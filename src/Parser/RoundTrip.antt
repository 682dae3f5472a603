-- ===== src/Parser/RoundTrip.antt =====
-- What was printed parses back.
use mathlib.Core.Path.{subst}
use gad.Prelude.{
  String, suc, ◌+◌, ◌*◌, ◌≤◌, ◌≡◌, refl, ap, ◌∙◌, false, [], ◌∷◌, ◌++◌, arith, length,
  length-append,
}
use gad.Token.{Token}
use gad.Parser.{
  Expr, Bound, Tokens, operand, nil_lit, name_lit, paren, unary, binary, cond, selector,
  nullish_selector, index, slice, no_bound, bound,
}
use gad.Parser.Expressions.{parsed, parse, parse_source}
use gad.Parser.Tokens.{shown}
use gad.Parser.Printer.{mark, around, print, print_bound, level, IsParse}
use gad.Parser.Starts.{precedence-le}
use gad.Parser.Operands.{
  single-Primary, paren-Primary, index-Primary, name-ReadsSelector, paren-ReadsSelector,
  selector-Primary, nullish-Primary,
}
use gad.Parser.Operators.{binary-Binary, nil-Reads, unary-Reads, cond-Full}
use gad.Parser.Slices.{slice-Primary}
use gad.Parser.Claims.{cost, cost_bound, Ends, Reads, Binary→Reads, Primary→Reads}

cond-Reads : (c t e : Expr) → 1 ≤ level c → Reads c → Reads t → Reads e → Reads (cond c t e)
unfolding level
cond-Reads c t e l readc readt reade = record {
  as_primary = λ h. absurd (omega arith);
  as_unary = λ h. absurd (omega arith);
  as_binary = λ h. absurd (omega arith);
  as_full = cond-Full c t e l readc readt reade;
}

bound-Reads : (e : Expr) → Reads e → (d : Expr) → Bound.bound e ≡ bound d → Reads d
bound-Reads e reads d same = subst Reads (ground (arith, same)) reads

no_bound-Reads : (d : Expr) → no_bound ≡ bound d → Reads d
no_bound-Reads d same = ground (arith, same)

Reads-all : (e : Expr) → IsParse e → Reads e
unfolding IsParse level
Reads-all (operand tok text) h = Primary→Reads _ h refl (single-Primary tok text h)
Reads-all nil_lit h = nil-Reads
Reads-all (name_lit text) h = absurd h
Reads-all (paren e) h = Primary→Reads (paren e) h refl (paren-Primary e h (Reads-all e h))
Reads-all (unary tok x) h = unary-Reads tok x h.0 (Reads-all x h.1)
Reads-all (binary op l r) h =
    Binary→Reads (binary op l r) h.0 (precedence-le op)
      (binary-Binary op l r h (Reads-all l h.4) (Reads-all r h.5))
Reads-all (cond c t e) h =
    cond-Reads c t e h.0 (Reads-all c h.1) (Reads-all t h.2) (Reads-all e h.3)
Reads-all (selector x (name_lit text)) h =
    Primary→Reads _ h refl
      (selector-Primary x (name_lit text) h.0 (Reads-all x h.1) (name-ReadsSelector text))
Reads-all (selector x (paren e)) h =
    Primary→Reads _ h refl
      (selector-Primary x (paren e) h.0 (Reads-all x h.1) (paren-ReadsSelector e (Reads-all e h.2)))
Reads-all (selector x _) h = absurd h.2
Reads-all (nullish_selector x (name_lit text)) h =
    Primary→Reads _ h refl
      (nullish-Primary x (name_lit text) h.0 (Reads-all x h.1) (name-ReadsSelector text))
Reads-all (nullish_selector x (paren e)) h =
    Primary→Reads _ h refl
      (nullish-Primary x (paren e) h.0 (Reads-all x h.1) (paren-ReadsSelector e (Reads-all e h.2)))
Reads-all (nullish_selector x _) h = absurd h.2
Reads-all (index x i) h =
    Primary→Reads _ h refl (index-Primary x i h.0 h.2 (Reads-all x h.1) (Reads-all i h.2))
Reads-all (slice x no_bound no_bound) h =
    Primary→Reads _ h refl (
      slice-Primary x no_bound no_bound h.0 (Reads-all x h.1) h.2 h.3 no_bound-Reads no_bound-Reads)
Reads-all (slice x (bound l) no_bound) h = Primary→Reads _ h refl (
    slice-Primary x (bound l) no_bound h.0 (Reads-all x h.1) h.2 h.3
      (bound-Reads l (Reads-all l h.2)) no_bound-Reads)
Reads-all (slice x no_bound (bound u)) h = Primary→Reads _ h refl (
    slice-Primary x no_bound (bound u) h.0 (Reads-all x h.1) h.2 h.3 no_bound-Reads
      (bound-Reads u (Reads-all u h.3)))
Reads-all (slice x (bound l) (bound u)) h = Primary→Reads _ h refl (
    slice-Primary x (bound l) (bound u) h.0 (Reads-all x h.1) h.2 h.3
      (bound-Reads l (Reads-all l h.2)) (bound-Reads u (Reads-all u h.3)))

length-around : (tok : Token) (ts : Tokens) → suc (length ts) ≤ length (around tok ts)
length-around Token.null ts =
    omega (arith, length-append ts (mark Token.equal ∷ mark Token.nil ∷ []))
length-around Token.not_null ts =
    omega (arith, length-append ts (mark Token.not_equal ∷ mark Token.nil ∷ []))
length-around _ ts = omega arith

longer :
    (ts : Tokens) (t : Token × String) (us : Tokens)
    → length (ts ++ t ∷ us) ≡ length ts + length us + 1
longer ts t us = omega (arith, length-append ts (t ∷ us))

-- Seven units of fuel for each token are enough for an expression.
mutual
  unfolding cost print

  cost-le : (e : Expr) → cost e ≤ 7 * length (print e)
  cost-le (operand tok text) = omega arith
  cost-le nil_lit = omega arith
  cost-le (name_lit text) = omega arith
  cost-le (paren e) = omega (arith, cost-le e, longer (print e) (mark Token.r_paren) [])
  cost-le (unary tok x) = omega (arith, cost-le x, length-around tok (print x))
  cost-le (binary op l r) =
      omega (arith, cost-le l, cost-le r, longer (print l) (mark op) (print r))
  cost-le (cond c t e) = omega (
    arith,
    cost-le c,
    cost-le t,
    cost-le e,
    longer (print c) (mark Token.question) (print t ++ mark Token.colon ∷ print e),
    longer (print t) (mark Token.colon) (print e),
  )
  cost-le (selector x s) =
      omega (arith, cost-le x, cost-le s, longer (print x) (mark Token.period) (print s))
  cost-le (nullish_selector x s) =
      omega (arith, cost-le x, cost-le s, longer (print x) (mark Token.nullish_selector) (print s))
  cost-le (index x i) = omega (
    arith,
    cost-le x,
    cost-le i,
    longer (print x) (mark Token.l_brack) (print i ++ mark Token.r_brack ∷ []),
    longer (print i) (mark Token.r_brack) [],
  )
  cost-le (slice x low high) = omega (
    arith,
    cost-le x,
    cost_bound-le low,
    cost_bound-le high,
    longer (print x) (mark Token.l_brack)
        (print_bound low ++ mark Token.colon ∷ (print_bound high ++ mark Token.r_brack ∷ [])),
    longer (print_bound low) (mark Token.colon) (print_bound high ++ mark Token.r_brack ∷ []),
    longer (print_bound high) (mark Token.r_brack) [],
  )

  cost_bound-le : (b : Bound) → cost_bound b ≤ 7 * length (print_bound b)
  cost_bound-le no_bound = omega arith
  cost_bound-le (bound e) = cost-le e

parse-print_shown :
    (e : Expr) (ts : Tokens) → IsParse e → Ends ts → parse (print e ++ ts) ≡ parsed e ts
unfolding parse
parse-print_shown e ts h ends =
    (Reads-all e h).as_full ts ends (7 * length (print e ++ ts) + 6)
      (omega (arith, cost-le e, length-append (print e) ts))

-- Where the tokens that the parser is shown of those of the scanner, without comments, marks of code
-- and empty texts, start with a printed expression of a shape that the parser can return, without
-- characters, decimal numbers and what else is not modelled, and the next one that is shown does not go
-- on with an expression, the parser reads off just this expression and gives it back.
pub parse-print :
    (e : Expr) (ts source : Tokens)
    → shown false source ≡ print e ++ ts
    → IsParse e
    → Ends ts
    → parse_source source ≡ parsed e ts
unfolding parse_source
parse-print e ts source seen h ends = ap parse seen ∙ parse-print_shown e ts h ends
