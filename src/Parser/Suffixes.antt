-- ===== src/Parser/Suffixes.antt =====
-- The steps of the parser for operands and for what follows them.
use gad.Prelude.{String, ℕ, suc, ◌≡◌, refl, true, false, ◌∷◌, if◌then◌else◌, Bool-cases, inl, inr}
use gad.Token.{Token}
use gad.Parser.{
  Expr, Bound, Tokens, operand, nil_lit, name_lit, paren, selector, nullish_selector, index, slice,
  no_bound, bound,
}
use gad.Parser.Tokens.{
  head, next_token, text_of, start_of, single, suffix_of, none_left, select_of, is_colon,
  is_r_brack, may_bound, is_r_paren, is_lambda, skip_space, is_ident_expr, is_ident, lists_on,
  is_semicolon,
}
use gad.Parser.Expressions.{
  Parsed, parsed, expect, end_paren, makes_list, parse_expr, primary_loop, parse_selector_node,
  parse_index_or_slice, slice_from, parse_operand,
}
use gad.Parser.Printer.{mark}
use gad.Parser.Steps.{From, spend, chain, when_true, when_false}

pub primary_loop-stop :
    (x : Expr) (ts : Tokens)
    → suffix_of (head ts) ≡ none_left
    → From 1 (λ g. primary_loop g x ts) (parsed x ts)
unfolding parse_expr
primary_loop-stop x ts h =
    spend (λ g. primary_loop g x ts) (parsed x ts) 0 (λ g k. rw (h, primary_loop) refl)

pub selector_node-name :
    (text : String) (rest : Tokens)
    → From 1 (λ g. parse_selector_node g ((Token.ident, text) ∷ rest)) (parsed (name_lit text) rest)
unfolding parse_expr head text_of next_token select_of
selector_node-name text rest =
    spend (λ g. parse_selector_node g ((Token.ident, text) ∷ rest)) (parsed (name_lit text) rest) 0
      (λ g k. refl)

pub slice_from-none :
    (x : Expr) (low : Bound) (rest : Tokens)
    → From 1
        (λ g. slice_from g x low (mark Token.r_brack ∷ rest))
        (parsed (slice x low no_bound) rest)
unfolding parse_expr head next_token may_bound expect is_r_brack
slice_from-none x low rest =
    spend (λ g. slice_from g x low (mark Token.r_brack ∷ rest)) (parsed (slice x low no_bound) rest)
      0 (λ g k. refl)

pub operand-single :
    (tok : Token) (text : String) (rest : Tokens)
    → start_of tok ≡ single
    → From 1 (λ g. parse_operand g ((tok, text) ∷ rest)) (parsed (operand tok text) rest)
unfolding parse_expr head text_of next_token
operand-single tok text rest h =
    spend (λ g. parse_operand g ((tok, text) ∷ rest)) (parsed (operand tok text) rest) 0
      (λ g k. rw (h, parse_operand) refl)

pub operand-nil :
    (rest : Tokens) → From 1 (λ g. parse_operand g (mark Token.nil ∷ rest)) (parsed nil_lit rest)
unfolding parse_expr head start_of next_token
operand-nil rest =
    spend (λ g. parse_operand g (mark Token.nil ∷ rest)) (parsed nil_lit rest) 0 (λ g k. refl)

end_paren-r_paren :
    (e : Expr) (rest : Tokens)
    → is_lambda (head rest) ≡ false
    → end_paren e (mark Token.r_paren ∷ rest) ≡ parsed (paren e) rest
unfolding end_paren skip_space head next_token is_ident lists_on is_r_paren is_semicolon
end_paren-r_paren e rest l = elim (Bool-cases (is_ident_expr e)) [
  | inl h ↦ rw (h, l) refl
  | inr h ↦ rw (h, l) refl
]

module _ (n : ℕ) (ts : Tokens) (e : Expr) (rest : Tokens) where
  pub operand-paren :
      makes_list ts ≡ false
      → is_lambda (head rest) ≡ false
      → From n (λ g. parse_expr g (skip_space ts)) (parsed e (mark Token.r_paren ∷ rest))
      → From (suc n) (λ g. parse_operand g (mark Token.l_paren ∷ ts)) (parsed (paren e) rest)
  unfolding parse_expr head start_of next_token
  operand-paren q l f =
      spend (λ g. parse_operand g (mark Token.l_paren ∷ ts)) (parsed (paren e) rest) n
        (λ g k. when_false (makes_list ts) _ _ q (
          chain (λ g. parse_expr g (skip_space ts)) (λ g. end_paren) e (mark Token.r_paren ∷ rest)
            (parsed (paren e) rest) n f (λ g k. end_paren-r_paren e rest l) g k))

  pub selector_node-paren :
      From n (λ g. parse_expr g ts) (parsed e (mark Token.r_paren ∷ rest))
      → From (suc n) (λ g. parse_selector_node g (mark Token.l_paren ∷ ts)) (parsed (paren e) rest)
  unfolding parse_expr head select_of next_token expect is_r_paren
  selector_node-paren f =
      spend (λ g. parse_selector_node g (mark Token.l_paren ∷ ts)) (parsed (paren e) rest) n
        (chain (λ g. parse_expr g ts) (λ g d more. expect is_r_paren (paren d) more) e
          (mark Token.r_paren ∷ rest) (parsed (paren e) rest) n f (λ g k. refl))

  pub slice_from-bound :
      (x : Expr) (low : Bound)
      → may_bound (head ts) ≡ true
      → From n (λ g. parse_expr g ts) (parsed e (mark Token.r_brack ∷ rest))
      → From (suc n) (λ g. slice_from g x low ts) (parsed (slice x low (bound e)) rest)
  unfolding parse_expr head next_token expect is_r_brack
  slice_from-bound x low q f =
      spend (λ g. slice_from g x low ts) (parsed (slice x low (bound e)) rest) n
        (λ g k. when_true (may_bound (head ts)) _ _ q (
          chain (λ g. parse_expr g ts) (λ g d more. expect is_r_brack (slice x low (bound d)) more)
            e (mark Token.r_brack ∷ rest) (parsed (slice x low (bound e)) rest) n f (λ g k. refl) g
            k))

  pub index-step :
      (x : Expr)
      → is_colon (head ts) ≡ false
      → From n (λ g. parse_expr g ts) (parsed e (mark Token.r_brack ∷ rest))
      → From (suc n) (λ g. parse_index_or_slice g x ts) (parsed (index x e) rest)
  unfolding parse_expr head next_token expect is_r_brack is_colon
  index-step x q f =
      spend (λ g. parse_index_or_slice g x ts) (parsed (index x e) rest) n
        (λ g k. when_false (is_colon (head ts)) _ _ q (
          chain (λ g. parse_expr g ts)
            (λ g low more.
              if is_colon (head more)
              then slice_from g x (bound low) (next_token more)
              else expect is_r_brack (index x low) more)
            e (mark Token.r_brack ∷ rest) (parsed (index x e) rest) n f (λ g k. refl) g k))

module _ (n : ℕ) (ts : Tokens) (x : Expr) (rest : Tokens) (r : Parsed Expr) where
  pub slice-step_none :
      From n (λ g. slice_from g x no_bound ts) r
      → From (suc n) (λ g. parse_index_or_slice g x (mark Token.colon ∷ ts)) r
  unfolding parse_expr head next_token is_colon
  slice-step_none f = spend (λ g. parse_index_or_slice g x (mark Token.colon ∷ ts)) r n f

  pub slice-step_bound :
      (low : Expr)
      → is_colon (head ts) ≡ false
      → From n (λ g. parse_expr g ts) (parsed low (mark Token.colon ∷ rest))
      → From n (λ g. slice_from g x (bound low) rest) r
      → From (suc n) (λ g. parse_index_or_slice g x ts) r
  unfolding parse_expr head next_token is_colon
  slice-step_bound low q f h =
      spend (λ g. parse_index_or_slice g x ts) r n
        (λ g k. when_false (is_colon (head ts)) _ _ q (
          chain (λ g. parse_expr g ts)
            (λ g d more.
              if is_colon (head more)
              then slice_from g x (bound d) (next_token more)
              else expect is_r_brack (index x d) more)
            low (mark Token.colon ∷ rest) r n f h g k))

  pub brack-step :
      (y : Expr)
      → From n (λ g. parse_index_or_slice g x ts) (parsed y rest)
      → From n (λ g. primary_loop g y rest) r
      → From (suc n) (λ g. primary_loop g x (mark Token.l_brack ∷ ts)) r
  unfolding parse_expr head suffix_of next_token
  brack-step y f h =
      spend (λ g. primary_loop g x (mark Token.l_brack ∷ ts)) r n
        (chain (λ g. parse_index_or_slice g x ts) (λ g. primary_loop g) y rest r n f h)

  pub period-step :
      (s : Expr)
      → From n (λ g. parse_selector_node g ts) (parsed s rest)
      → From n (λ g. primary_loop g (selector x s) rest) r
      → From (suc n) (λ g. primary_loop g x (mark Token.period ∷ ts)) r
  unfolding parse_expr head suffix_of next_token
  period-step s f h =
      spend (λ g. primary_loop g x (mark Token.period ∷ ts)) r n
        (chain (λ g. parse_selector_node g ts) (λ g s rest. primary_loop g (selector x s) rest) s
          rest r n f h)

  pub nullish-step :
      (s : Expr)
      → From n (λ g. parse_selector_node g ts) (parsed s rest)
      → From n (λ g. primary_loop g (nullish_selector x s) rest) r
      → From (suc n) (λ g. primary_loop g x (mark Token.nullish_selector ∷ ts)) r
  unfolding parse_expr head suffix_of next_token
  nullish-step s f h =
      spend (λ g. primary_loop g x (mark Token.nullish_selector ∷ ts)) r n
        (chain (λ g. parse_selector_node g ts)
          (λ g s rest. primary_loop g (nullish_selector x s) rest) s rest r n f h)
