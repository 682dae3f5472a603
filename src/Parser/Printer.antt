-- ===== src/Parser/Printer.antt =====
-- The expressions that the parser can return, and the tokens that an expression stands for.
use gad.Prelude.{String, ℕ, ◌≤◌, ◌<◌, ◌≡◌, ◌⊎◌, true, false, [], ◌∷◌, ◌++◌}
use gad.Token.{Token, precedence}
use gad.Parser.{
  Expr, Bound, Tokens, operand, nil_lit, name_lit, paren, unary, binary, cond, selector,
  nullish_selector, index, slice, no_bound, bound,
}
use gad.Parser.Tokens.{start_of, single, is_prefix, is_nil_lit, null_test_of, no_test}

-- A token whose text does not matter.
abbrev pub mark : Token → Token × String
mark tok = (tok, "")

-- An operator before its operand, or a comparison with nil behind it.
abbrev pub around : Token → Tokens → Tokens
around Token.null ts = ts ++ mark Token.equal ∷ mark Token.nil ∷ []
around Token.not_null ts = ts ++ mark Token.not_equal ∷ mark Token.nil ∷ []
around tok ts = mark tok ∷ ts

unfoldable mutual
  pub print : Expr → Tokens
  print (operand tok text) = (tok, text) ∷ []
  print nil_lit = mark Token.nil ∷ []
  print (name_lit text) = (Token.ident, text) ∷ []
  print (paren e) = mark Token.l_paren ∷ (print e ++ mark Token.r_paren ∷ [])
  print (unary tok x) = around tok (print x)
  print (binary op l r) = print l ++ mark op ∷ print r
  print (cond c t e) = print c ++ mark Token.question ∷ (print t ++ mark Token.colon ∷ print e)
  print (selector x s) = print x ++ mark Token.period ∷ print s
  print (nullish_selector x s) = print x ++ mark Token.nullish_selector ∷ print s
  print (index x i) = print x ++ mark Token.l_brack ∷ (print i ++ mark Token.r_brack ∷ [])
  print (slice x low high) =
      print x
      ++ mark Token.l_brack
        ∷ (print_bound low ++ mark Token.colon ∷ (print_bound high ++ mark Token.r_brack ∷ []))

  pub print_bound : Bound → Tokens
  print_bound no_bound = []
  print_bound (bound e) = print e

-- How tightly an expression holds together: a conditional not at all, a binary one as its operator,
-- then the prefix operators, then the operands with what follows them.
abbrev pub unary_level : Token → ℕ
unary_level Token.null = 4
unary_level Token.not_null = 4
unary_level tok = 9

unfoldable pub level : Expr → ℕ
level (cond c t e) = 0
level (binary op l r) = precedence op
level (unary tok x) = unary_level tok
level _ = 10

-- The operators of unary expressions, with the level that their operand needs.
abbrev pub UnaryFits : Token → ℕ → Type 0
UnaryFits Token.null n = 4 ≤ n
UnaryFits Token.not_null n = 4 ≤ n
UnaryFits tok n = (is_prefix tok ≡ true) × (9 ≤ n)

-- Binary operators associate to the left: the left operand may be of the same precedence, the right
-- one holds together more tightly. A comparison with nil is not a binary expression.
unfoldable mutual
  pub IsParse : Expr → Type 0
  IsParse (operand tok text) = start_of tok ≡ single
  IsParse nil_lit = Unit
  IsParse (name_lit text) = ⊥
  IsParse (paren e) = IsParse e
  IsParse (unary tok x) = UnaryFits tok (level x) × IsParse x
  IsParse (binary op l r) =
      (1 ≤ precedence op)
      × (precedence op ≤ level l)
      × (precedence op < level r)
      × ((null_test_of op ≡ no_test) ⊎ ((is_nil_lit l ≡ false) × (is_nil_lit r ≡ false)))
      × IsParse l
      × IsParse r
  IsParse (cond c t e) = (1 ≤ level c) × IsParse c × IsParse t × IsParse e
  IsParse (selector x s) = (10 ≤ level x) × IsParse x × IsSelector s
  IsParse (nullish_selector x s) = (10 ≤ level x) × IsParse x × IsSelector s
  IsParse (index x i) = (10 ≤ level x) × IsParse x × IsParse i
  IsParse (slice x low high) = (10 ≤ level x) × IsParse x × IsBound low × IsBound high

  pub IsBound : Bound → Type 0
  IsBound no_bound = Unit
  IsBound (bound e) = IsParse e

  -- What follows a period.
  pub IsSelector : Expr → Type 0
  IsSelector (name_lit text) = Unit
  IsSelector (paren e) = IsParse e
  IsSelector _ = ⊥
