-- ===== src/Tests/Parsing.antt =====
-- a - b - c * d == nil ? f.g[1:] : !(h || k)
use gad.Prelude.{
  String, ◌<◌, ◌≡◌, ◌≢◌, refl, sym, ap, ◌∙◌, false, inl, [], ◌∷◌, ◌++◌, length, arith,
}
use gad.Token.{Token, precedence}
use gad.Parser.{
  Expr, Bound, Tokens, operand, nil_lit, name_lit, paren, unary, binary, cond, selector,
  nullish_selector, index, slice, no_bound, bound,
}
use gad.Parser.Tokens.{shown, is_comment, is_passed}
use gad.Parser.Expressions.{parsed, out_of_fuel, parse, parse_source, parse_expr}
use gad.Parser.Printer.{mark, print, IsParse}
use gad.Parser.Claims.{Ends}
use gad.Parser.RoundTrip.{parse-print}
use gad.Parser.Total.{parse-ne-out_of_fuel, parse-IsParse}

abbrev name : String → Expr
name text = operand Token.ident text

abbrev difference : Expr
difference =
    binary Token.sub (binary Token.sub (name "a") (name "b"))
      (binary Token.mul (name "c") (name "d"))

abbrev chosen_slice : Expr
chosen_slice = slice (selector (name "f") (name_lit "g")) (bound (operand Token.int "1")) no_bound

abbrev negated : Expr
negated = unary Token.not (paren (binary Token.l_or (name "h") (name "k")))

abbrev example : Expr
example = cond (unary Token.null difference) chosen_slice negated

example-IsParse : IsParse example
unfolding IsParse gad.Parser.Printer.level precedence gad.Parser.Tokens.null_test_of
    gad.Parser.Tokens.start_of gad.Parser.Tokens.is_prefix
example-IsParse = (
  omega arith,
  (
    omega arith,
    (
      omega arith,
      omega arith,
      omega arith,
      inl refl,
      (omega arith, omega arith, omega arith, inl refl, refl, refl),
      (omega arith, omega arith, omega arith, inl refl, refl, refl),
    ),
  ),
  (omega arith, (omega arith, refl, tt), refl, tt),
  ((refl, omega arith), (omega arith, omega arith, omega arith, inl refl, refl, refl)),
)

example_tokens :
    print difference
    ≡ (Token.ident, "a")
      ∷ mark Token.sub
      ∷ (Token.ident, "b")
      ∷ mark Token.sub
      ∷ (Token.ident, "c")
      ∷ mark Token.mul
      ∷ (Token.ident, "d")
      ∷ []
unfolding print
example_tokens = refl

semicolon-Ends : Ends (mark Token.semicolon ∷ [])
unfolding gad.Parser.Tokens.head gad.Parser.Tokens.suffix_of gad.Parser.Tokens.is_lambda
    gad.Parser.Tokens.is_question precedence
semicolon-Ends = ((refl, refl), refl, refl)

-- With a mark of code before it, and a comment behind it.
abbrev source : Tokens
source = mark Token.code_begin ∷ (print example ++ mark Token.comment ∷ mark Token.semicolon ∷ [])

shown-source : shown false source ≡ print example ++ mark Token.semicolon ∷ []
unfolding shown is_comment is_passed print
shown-source = refl

parse-print_example : parse_source source ≡ parsed example (mark Token.semicolon ∷ [])
parse-print_example =
    parse-print example (mark Token.semicolon ∷ []) source shown-source example-IsParse
      semicolon-Ends

parse-ne-out_of_fuel_example :
    (parse (mark Token.l_paren ∷ mark Token.l_paren ∷ []) ≢ out_of_fuel)
    × (parse_expr 30 (mark Token.l_paren ∷ mark Token.l_paren ∷ []) ≢ out_of_fuel)
parse-ne-out_of_fuel_example =
    parse-ne-out_of_fuel (mark Token.l_paren ∷ mark Token.l_paren ∷ []) 30 (omega arith)

-- The comment ends nothing: `a`, a comment, `+`, `b`.
abbrev commented : Tokens
commented = (Token.ident, "a") ∷ mark Token.comment ∷ mark Token.add ∷ (Token.ident, "b") ∷ []

shown-commented : shown false commented ≡ print (binary Token.add (name "a") (name "b")) ++ []
unfolding shown is_comment is_passed print
shown-commented = refl

no_comments :
    shown false (print example ++ mark Token.semicolon ∷ [])
    ≡ print example ++ mark Token.semicolon ∷ []
unfolding shown is_comment is_passed print
no_comments = refl

example-parses :
    parse (print example ++ mark Token.semicolon ∷ []) ≡ parsed example (mark Token.semicolon ∷ [])
unfolding parse_source
example-parses =
    ap parse (sym no_comments)
    ∙ parse-print example (mark Token.semicolon ∷ []) (print example ++ mark Token.semicolon ∷ [])
        no_comments example-IsParse semicolon-Ends

parse-IsParse_example :
    IsParse example
    × (length (mark Token.semicolon ∷ []) < length (print example ++ mark Token.semicolon ∷ []))
parse-IsParse_example =
    parse-IsParse (print example ++ mark Token.semicolon ∷ []) example (mark Token.semicolon ∷ [])
      example-parses
