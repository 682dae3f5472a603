-- ===== src/Parser/Starts.antt =====
-- The first token of a printed expression, and what the tokens behind one do.
use gad.Prelude.{
  String, ◌≤◌, ◌≡◌, refl, sym, ap, ◌∙◌, Bool, true, false, ◌||◌, ◌∷◌, ◌++◌, arith, append_assoc,
}
use gad.Token.{Token, precedence}
use gad.Parser.{
  Expr, Tokens, operand, nil_lit, name_lit, paren, unary, binary, cond, selector, nullish_selector,
  index, slice,
}
use gad.Parser.Tokens.{
  Start, head, start_of, single, null, opens, elsewhere, nothing, suffix_of, none_left, is_prefix,
  is_colon, may_bound, is_semicolon, is_lambda, starts_list,
}
use gad.Parser.Printer.{mark, print, level, unary_level, UnaryFits, IsParse}

abbrev starts_one : Start → Bool
starts_one single = true
starts_one null = true
starts_one opens = true
starts_one elsewhere = false
starts_one nothing = false

-- An operand can start with the token.
unfoldable pub starts_operand : Token → Bool
starts_operand tok = starts_one (start_of tok)

pub precedence-le : (tok : Token) → precedence tok ≤ 8
unfolding precedence
precedence-le tok = ground arith

pub unary_level-le : (tok : Token) → unary_level tok ≤ 9
unary_level-le tok = ground arith

-- An operand does not start like a prefix operator, and no expression starts like what may follow
-- one.
pub starts_operand→prefix : (tok : Token) → starts_operand tok ≡ true → is_prefix tok ≡ false
unfolding starts_operand start_of is_prefix
starts_operand→prefix Token.add h = sym h
starts_operand→prefix Token.sub h = sym h
starts_operand→prefix Token.not h = sym h
starts_operand→prefix Token.xor h = sym h
starts_operand→prefix _ h = refl

unfoldable pub can_start : Token → Bool
can_start tok = starts_operand tok || is_prefix tok

abbrev pub StartFacts : Token → Type 0
StartFacts tok =
    (is_colon tok ≡ false)
    × (may_bound tok ≡ true)
    × (is_semicolon tok ≡ false)
    × (starts_list tok ≡ false)

pub can_start-StartFacts : (tok : Token) → can_start tok ≡ true → StartFacts tok
unfolding can_start starts_operand start_of is_prefix is_colon may_bound is_semicolon starts_list
can_start-StartFacts Token.colon h = ground arith
can_start-StartFacts Token.r_brack h = ground arith
can_start-StartFacts Token.eof h = ground arith
can_start-StartFacts Token.semicolon h = ground arith
can_start-StartFacts Token.mul h = ground arith
can_start-StartFacts Token.r_paren h = ground arith
can_start-StartFacts _ h = (refl, refl, refl, refl)

-- A binary operator ends an operand, and the tokens are not those of a closure or a conditional.
pub precedence→stops :
    (tok : Token) → 1 ≤ precedence tok → (suffix_of tok ≡ none_left) × (is_lambda tok ≡ false)
unfolding precedence suffix_of is_lambda
precedence→stops Token.nullish_selector h = absurd (omega arith)
precedence→stops Token.period h = absurd (omega arith)
precedence→stops Token.l_brack h = absurd (omega arith)
precedence→stops Token.l_paren h = absurd (omega arith)
precedence→stops Token.lambda h = absurd (omega arith)
precedence→stops _ h = (refl, refl)

-- What the first token of a list does not change behind more of it.
head-append_cons :
    (f : Token → Bool) (ts : Tokens) (t : Token × String) (us rest : Tokens)
    → f (head (ts ++ t ∷ (us ++ rest))) ≡ true
    → f (head ((ts ++ t ∷ us) ++ rest)) ≡ true
head-append_cons f ts t us rest h = ap f (ap head (append_assoc ts (t ∷ us) rest)) ∙ h

-- The first token of a printed operand.
pub print-starts_operand :
    (e : Expr)
    → IsParse e
    → 10 ≤ level e
    → (rest : Tokens) → starts_operand (head (print e ++ rest)) ≡ true
unfolding IsParse level print head
print-starts_operand (operand tok text) h l rest = unfold starts_operand in ap starts_one h
print-starts_operand nil_lit h l rest = unfold starts_operand start_of in refl
print-starts_operand (name_lit text) h l rest = absurd h
print-starts_operand (paren e) h l rest = unfold starts_operand start_of in refl
print-starts_operand (unary tok x) h l rest = absurd (omega (arith, unary_level-le tok))
print-starts_operand (binary op x y) h l rest = absurd (omega (arith, precedence-le op))
print-starts_operand (cond c t e) h l rest = absurd (omega arith)
print-starts_operand (selector x s) h l rest =
    head-append_cons starts_operand (print x) (mark Token.period) _ rest
      (print-starts_operand x h.1 h.0 _)
print-starts_operand (nullish_selector x s) h l rest =
    head-append_cons starts_operand (print x) (mark Token.nullish_selector) _ rest
      (print-starts_operand x h.1 h.0 _)
print-starts_operand (index x i) h l rest =
    head-append_cons starts_operand (print x) (mark Token.l_brack) _ rest
      (print-starts_operand x h.1 h.0 _)
print-starts_operand (slice x low high) h l rest =
    head-append_cons starts_operand (print x) (mark Token.l_brack) _ rest
      (print-starts_operand x h.1 h.0 _)

prefix-can_start : (tok : Token) → is_prefix tok ≡ true → can_start tok ≡ true
unfolding can_start
prefix-can_start tok h = ground arith

operand-can_start :
    (e : Expr)
    → IsParse e
    → 10 ≤ level e
    → (rest : Tokens) → can_start (head (print e ++ rest)) ≡ true
unfolding can_start
operand-can_start e h l rest =
    ap (λ b. b || is_prefix (head (print e ++ rest))) (print-starts_operand e h l rest)

unary_starts :
    (tok : Token) (x : Expr)
    → UnaryFits tok (level x)
    → ((rest : Tokens) → can_start (head (print x ++ rest)) ≡ true)
    → (rest : Tokens) → can_start (head (print (unary tok x) ++ rest)) ≡ true
unfolding print can_start head
unary_starts Token.null x h k rest =
    head-append_cons can_start (print x) (mark Token.equal) _ rest (k _)
unary_starts Token.not_null x h k rest =
    head-append_cons can_start (print x) (mark Token.not_equal) _ rest (k _)
unary_starts tok x h k rest = prefix-can_start tok h.0

-- The first token of a printed expression.
pub print-can_start :
    (e : Expr) → IsParse e → (rest : Tokens) → can_start (head (print e ++ rest)) ≡ true
unfolding IsParse print can_start
print-can_start (unary tok x) h rest = unary_starts tok x h.0 (print-can_start x h.1) rest
print-can_start (binary op x y) h rest =
    head-append_cons can_start (print x) (mark op) _ rest (print-can_start x h.4 _)
print-can_start (cond c t e) h rest =
    head-append_cons can_start (print c) (mark Token.question) _ rest (print-can_start c h.1 _)
print-can_start e h rest = operand-can_start e h (unfold level in omega arith) rest
