-- ===== src/Parser/Operands.antt =====
-- What the parser does with printed operands.
use gad.Prelude.{
  String, ℕ, suc, ◌+◌, ◌≤◌, ◌≡◌, refl, ap, ◌∙◌, false, [], ◌∷◌, ◌++◌, arith, append_assoc,
}
use gad.Token.{Token, precedence}
use gad.Parser.{Expr, Tokens, operand, nil_lit, name_lit, paren, selector, nullish_selector, index}
use gad.Parser.Tokens.{
  head, start_of, single, suffix_of, none_left, is_question, is_lambda, skip_space, is_semicolon,
  starts_list,
}
use gad.Parser.Expressions.{
  Parsed, parsed, makes_list, parse_expr, parse_primary_expr, primary_loop, parse_selector_node,
}
use gad.Parser.Printer.{mark, print, level, IsParse}
use gad.Parser.Steps.{From, weaken, primary-step}
use gad.Parser.Suffixes.{
  operand-single, operand-nil, operand-paren, selector_node-name, selector_node-paren, index-step,
  brack-step, period-step, nullish-step,
}
use gad.Parser.Starts.{can_start-StartFacts, print-can_start}
use gad.Parser.Claims.{cost, Primary, Reads}

-- The result of a parse of tokens that are put together in another way.
pub regroup :
    (p : ℕ → Tokens → Parsed Expr) (n : ℕ) (before : Tokens) (t : Token × String) (bs ts : Tokens)
    {r : Parsed Expr}
    → From n (λ g. p g (before ++ t ∷ (bs ++ ts))) r
    → From n (λ g. p g ((before ++ t ∷ bs) ++ ts)) r
regroup p n before t bs ts h g k = ap (p g) (append_assoc before (t ∷ bs) ts) ∙ h g k

pub single-Primary :
    (tok : Token) (text : String) → start_of tok ≡ single → Primary (operand tok text)
unfolding print cost
single-Primary tok text h n ts r l k =
    weaken
      (primary-step (n + 1) ((tok, text) ∷ ts) (operand tok text) ts r
        (weaken (operand-single tok text ts h) (omega arith)) (weaken k (omega arith)))
      (omega arith)

pub nil-Primary : Primary nil_lit
unfolding print cost
nil-Primary n ts r l k =
    weaken
      (primary-step (n + 1) (mark Token.nil ∷ ts) nil_lit ts r
        (weaken (operand-nil ts) (omega arith)) (weaken k (omega arith)))
      (omega arith)

-- Behind an opening parenthesis, nothing of an expression is skipped, and it makes no list.
in_paren-starts :
    (ts : Tokens)
    → is_semicolon (head ts) ≡ false
    → starts_list (head ts) ≡ false
    → (makes_list ts ≡ false) × (skip_space ts ≡ ts)
unfolding makes_list skip_space head
in_paren-starts [] h k = (rw h k, refl)
in_paren-starts ((tok, text) ∷ ts) h k = (rw h k, rw h refl)

-- What follows an expression in a parenthesis, behind a bracket, before a colon.
unfoldable pub Closed : (tok : Token) → Type 0
Closed tok =
    ((suffix_of tok ≡ none_left) × (is_lambda tok ≡ false))
    × (precedence tok ≡ 0)
    × (is_question tok ≡ false)

pub paren-Closed : Closed Token.r_paren
unfolding Closed suffix_of is_lambda precedence is_question
paren-Closed = ((refl, refl), refl, refl)

pub brack-Closed : Closed Token.r_brack
unfolding Closed suffix_of is_lambda precedence is_question
brack-Closed = ((refl, refl), refl, refl)

pub colon-Closed : Closed Token.colon
unfolding Closed suffix_of is_lambda precedence is_question
colon-Closed = ((refl, refl), refl, refl)

-- A whole expression before such a token.
pub before :
    (e : Expr) (tok : Token) (ts : Tokens)
    → Reads e
    → Closed tok
    → From (cost e + 5) (λ g. parse_expr g (print e ++ mark tok ∷ ts)) (parsed e (mark tok ∷ ts))
unfolding Closed head
before e tok ts reads c = reads.as_full (mark tok ∷ ts) c

pub paren-Primary : (e : Expr) → IsParse e → Reads e → Primary (paren e)
unfolding print cost
paren-Primary e h reads n ts r l k =
    let inside = print e ++ mark Token.r_paren ∷ ts in
    let facts =
      can_start-StartFacts (head inside) (print-can_start e h (mark Token.r_paren ∷ ts)) in
    let free = in_paren-starts inside facts.2 facts.3 in
    regroup (λ g u. parse_primary_expr g (mark Token.l_paren ∷ u)) (n + (cost e + 7)) (print e)
      (mark Token.r_paren) [] ts
      (weaken
        (primary-step (n + cost e + 6) (mark Token.l_paren ∷ inside) (paren e) ts r
          (weaken
            (operand-paren (cost e + 5) inside e ts free.0 l
              (rw free.1 (before e Token.r_paren ts reads paren-Closed)))
            (omega arith))
          (weaken k (omega arith)))
        (omega arith))

-- An operand with tokens behind it, of which the first goes on with it.
pub behind :
    (x : Expr) (n : ℕ) (tok : Token) (us ts : Tokens) (r : Parsed Expr)
    → 10 ≤ level x
    → Reads x
    → is_lambda tok ≡ false
    → From n (λ g. primary_loop g x (mark tok ∷ (us ++ ts))) r
    → From (n + cost x) (λ g. parse_primary_expr g ((print x ++ mark tok ∷ us) ++ ts)) r
unfolding head
behind x n tok us ts r l reads q h =
    regroup (λ g u. parse_primary_expr g u) (n + cost x) (print x) (mark tok) us ts
      (reads.as_primary l n (mark tok ∷ (us ++ ts)) r q h)

pub index-Primary :
    (x i : Expr) → 10 ≤ level x → IsParse i → Reads x → Reads i → Primary (index x i)
unfolding print cost is_lambda
index-Primary x i l h reads readi n ts r q k =
    let inside = print i ++ mark Token.r_brack ∷ ts in
    let facts =
      can_start-StartFacts (head inside) (print-can_start i h (mark Token.r_brack ∷ ts)) in
    weaken
      (behind x (n + cost i + 7) Token.l_brack (print i ++ mark Token.r_brack ∷ []) ts r l reads
        refl
        (regroup (λ g u. primary_loop g x (mark Token.l_brack ∷ u)) (n + cost i + 7) (print i)
          (mark Token.r_brack) [] ts
          (weaken
            (brack-step (n + cost i + 6) inside x ts r (index x i)
              (weaken
                (index-step (cost i + 5) inside i ts x facts.0
                  (before i Token.r_brack ts readi brack-Closed))
                (omega arith))
              (weaken k (omega arith)))
            (omega arith))))
      (omega arith)

-- A name or a parenthesis behind a period.
unfoldable pub ReadsSelector : Expr → Type 0
ReadsSelector s =
    (ts : Tokens) → From (cost s) (λ g. parse_selector_node g (print s ++ ts)) (parsed s ts)

pub name-ReadsSelector : (text : String) → ReadsSelector (name_lit text)
unfolding ReadsSelector print cost
name-ReadsSelector text ts = weaken (selector_node-name text ts) (omega arith)

pub paren-ReadsSelector : (e : Expr) → Reads e → ReadsSelector (paren e)
unfolding ReadsSelector print cost
paren-ReadsSelector e reads ts =
    regroup (λ g u. parse_selector_node g (mark Token.l_paren ∷ u)) (cost e + 7) (print e)
      (mark Token.r_paren) [] ts
      (weaken
        (selector_node-paren (cost e + 5) (print e ++ mark Token.r_paren ∷ ts) e ts
          (before e Token.r_paren ts reads paren-Closed))
        (omega arith))

pub selector-Primary :
    (x s : Expr) → 10 ≤ level x → Reads x → ReadsSelector s → Primary (selector x s)
unfolding print cost is_lambda ReadsSelector
selector-Primary x s l reads reads_s n ts r q k =
    weaken
      (behind x (suc (n + cost s)) Token.period (print s) ts r l reads refl (
        period-step (n + cost s) (print s ++ ts) x ts r s (weaken (reads_s ts) (omega arith))
          (weaken k (omega arith))))
      (omega arith)

pub nullish-Primary :
    (x s : Expr) → 10 ≤ level x → Reads x → ReadsSelector s → Primary (nullish_selector x s)
unfolding print cost is_lambda ReadsSelector
nullish-Primary x s l reads reads_s n ts r q k =
    weaken
      (behind x (suc (n + cost s)) Token.nullish_selector (print s) ts r l reads refl (
        nullish-step (n + cost s) (print s ++ ts) x ts r s (weaken (reads_s ts) (omega arith))
          (weaken k (omega arith))))
      (omega arith)
