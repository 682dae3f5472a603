-- ===== src/Parser/Expressions.antt =====
-- `ParseExpr` and the functions that it calls. Each call takes a unit of fuel. An error of the parser
-- ends the model, where the source goes on to find more of them.
use text.Mathlib.Text.{◌==◌ as str_eq}
use gad.Prelude.{ℕ, zero, suc, ◌+◌, ◌*◌, Bool, false, ◌&&◌, ◌||◌, if◌then◌else◌, ltb, length}
use gad.Token.{Token, precedence}
use gad.Parser.{
  Expr, Bound, Tokens, operand, nil_lit, name_lit, paren, unary, binary, cond, selector,
  nullish_selector, index, slice, no_bound, bound,
}
use gad.Parser.Tokens.{
  head, text_of, next_token, start_of, single, null, opens, elsewhere, nothing, suffix_of, nullish,
  period, brack, call, none_left, select_of, by_name, by_keyword, by_paren, wrong, keyword_text,
  NullTest, is_prefix, is_question, is_colon, is_r_brack, may_bound, is_r_paren, is_semicolon,
  is_lambda, skip_space, starts_list, lists_on, is_ident, null_test_of, tests_null, tests_not_null,
  no_test, is_nil_lit, is_ident_expr, shown,
}

-- `not_covered` is a construct that is not modelled.
pub data Parsed {ℓ} (A : Type ℓ) : Type ℓ where
  parsed : A → Tokens → Parsed A
  failed not_covered out_of_fuel : Parsed A

abbrev pub Parser {ℓ} : Type ℓ → Type ℓ
Parser A = Tokens → Parsed A

-- A call, then what uses its result.
unfoldable pub and_then {ℓ κ} : {A : Type ℓ} {B : Type κ} → Parsed A → (A → Parser B) → Parsed B
and_then (parsed a ts) k = k a ts
and_then failed k = failed
and_then not_covered k = not_covered
and_then out_of_fuel k = out_of_fuel

-- `p.Expect(tok)`, given the test for `tok`.
unfoldable pub expect {ℓ} : {A : Type ℓ} → (Token → Bool) → A → Parser A
expect test a ts = if test (head ts) then parsed a (next_token ts) else failed

-- The node that `ParseBinaryExpr` makes.
unfoldable pub null_or : Token → Token → Expr → Expr → Expr
null_or op tok x y =
    if is_nil_lit x then unary tok y else if is_nil_lit y then unary tok x else binary op x y

unfoldable pub combine_by : NullTest → Token → Expr → Expr → Expr
combine_by tests_null op x y = null_or op Token.null x y
combine_by tests_not_null op x y = null_or op Token.not_null x y
combine_by no_test op x y = binary op x y

unfoldable pub combine : Token → Expr → Expr → Expr
combine op x y = combine_by (null_test_of op) op x y

-- The end of a parenthesis with one expression.
unfoldable pub end_paren : Expr → Parser Expr
end_paren e ts =
    let rest = skip_space ts in
    if is_ident_expr e && is_ident (head rest)
    then not_covered
    else if lists_on (head rest)
    then not_covered
    else if is_r_paren (head rest)
    then if is_lambda (head (next_token rest))
      then not_covered
      else parsed (paren e) (next_token rest)
    else failed

-- Whether a parenthesis is a list, by what follows its opening; or else `SkipSpace` comes next.
unfoldable pub makes_list : Tokens → Bool
makes_list ts =
    (is_semicolon (head ts) && str_eq (text_of ts) ";") || starts_list (head (skip_space ts))

unfoldable mutual
  pub parse_expr : ℕ → Parser Expr
  parse_expr zero ts = out_of_fuel
  parse_expr (suc f) ts = and_then (parse_binary_expr f 1 ts) (λ x rest.
      let more = parse_cond_expr f x rest in
      if is_question (head rest) then more else parsed x rest)

  pub parse_binary_expr : ℕ → ℕ → Parser Expr
  parse_binary_expr zero prec1 ts = out_of_fuel
  parse_binary_expr (suc f) prec1 ts = and_then (parse_unary_expr f ts) (binary_loop f prec1)

  pub binary_loop : ℕ → ℕ → Expr → Parser Expr
  binary_loop zero prec1 x ts = out_of_fuel
  binary_loop (suc f) prec1 x ts =
      let op = head ts in
      let more =
        and_then (parse_binary_expr f (precedence op + 1) (next_token ts))
          (λ y rest. binary_loop f prec1 (combine op x y) rest) in
      if ltb (precedence op) prec1 then parsed x ts else more

  pub parse_cond_expr : ℕ → Expr → Parser Expr
  parse_cond_expr zero c ts = out_of_fuel
  parse_cond_expr (suc f) c ts = and_then (parse_expr f (next_token ts)) (λ t rest.
      let more = and_then (parse_expr f (next_token rest)) (λ e rest₂. parsed (cond c t e) rest₂) in
      if is_colon (head rest) then more else parsed (cond c t t) rest)

  pub parse_unary_expr : ℕ → Parser Expr
  parse_unary_expr zero ts = out_of_fuel
  parse_unary_expr (suc f) ts =
      let prefixed =
        and_then (parse_unary_expr f (next_token ts)) (λ x rest. parsed (unary (head ts) x) rest) in
      let primary = parse_primary_expr f ts in if is_prefix (head ts) then prefixed else primary

  pub parse_primary_expr : ℕ → Parser Expr
  parse_primary_expr zero ts = out_of_fuel
  parse_primary_expr (suc f) ts = and_then (parse_operand f ts) (primary_loop f)

  pub primary_loop : ℕ → Expr → Parser Expr
  primary_loop zero x ts = out_of_fuel
  primary_loop (suc f) x ts = elim (suffix_of (head ts)) [
    | nullish ↦
        and_then (parse_selector_node f (next_token ts))
          (λ s rest. primary_loop f (nullish_selector x s) rest)
    | period ↦
        and_then (parse_selector_node f (next_token ts))
          (λ s rest. primary_loop f (selector x s) rest)
    | brack ↦ and_then (parse_index_or_slice f x (next_token ts)) (primary_loop f)
    | call ↦ not_covered
    | none_left ↦ parsed x ts
  ]

  pub parse_selector_node : ℕ → Parser Expr
  parse_selector_node zero ts = out_of_fuel
  parse_selector_node (suc f) ts = elim (select_of (head ts)) [
    | by_name ↦ parsed (name_lit (text_of ts)) (next_token ts)
    | by_keyword ↦ parsed (name_lit (keyword_text (head ts))) (next_token ts)
    | by_paren ↦
        and_then (parse_expr f (next_token ts)) (λ e rest. expect is_r_paren (paren e) rest)
    | wrong ↦ failed
  ]

  pub parse_index_or_slice : ℕ → Expr → Parser Expr
  parse_index_or_slice zero x ts = out_of_fuel
  parse_index_or_slice (suc f) x ts =
      let sliced = slice_from f x no_bound (next_token ts) in
      let first = and_then (parse_expr f ts) (λ low rest.
        let more = slice_from f x (bound low) (next_token rest) in
        if is_colon (head rest) then more else expect is_r_brack (index x low) rest) in
      if is_colon (head ts) then sliced else first

  -- Behind the colon.
  pub slice_from : ℕ → Expr → Bound → Parser Expr
  slice_from zero x low ts = out_of_fuel
  slice_from (suc f) x low ts =
      let high =
        and_then (parse_expr f ts) (λ e rest. expect is_r_brack (slice x low (bound e)) rest) in
      if may_bound (head ts) then high else expect is_r_brack (slice x low no_bound) ts

  pub parse_operand : ℕ → Parser Expr
  parse_operand zero ts = out_of_fuel
  parse_operand (suc f) ts = elim (start_of (head ts)) [
    | single ↦ parsed (operand (head ts) (text_of ts)) (next_token ts)
    | null ↦ parsed nil_lit (next_token ts)
    | opens ↦
        let inner = and_then (parse_expr f (skip_space (next_token ts))) end_paren in
        if makes_list (next_token ts) then not_covered else inner
    | elsewhere ↦ not_covered
    | nothing ↦ failed
  ]

-- With fuel for each of the tokens.
unfoldable pub parse : Tokens → Parsed Expr
parse ts = parse_expr (7 * length ts + 6) ts

-- `ParseExpr` on the tokens of the scanner.
unfoldable pub parse_source : Tokens → Parsed Expr
parse_source ts = parse (shown false ts)
