-- ===== src/Parser.antt =====
-- parser/parser.go for expressions, without the calls, the literals of several tokens, the functions
-- and the lists in parentheses. This file has the expressions of parser/node/expr.go, less positions,
-- Parser/Tokens.antt the tests on tokens, Parser/Expressions.antt the parser, and Parser/Printer.antt
-- the expressions that it can return, with the tokens of each.
pub mod Tokens
pub mod Expressions
pub mod Printer
pub mod Steps
pub mod Suffixes
pub mod Starts
pub mod Claims
pub mod Operands
pub mod Slices
pub mod Operators
pub mod RoundTrip
pub mod Ensures
pub mod Total
use gad.Prelude.{String, List}
use gad.Token.{Token}

-- `operand` is a literal, an identifier or a keyword that is one token, with its text; `nil_lit`,
-- which has none, is apart, since the parser looks for it. `name_lit` is the text behind a period.
mutual
  pub data Expr : Type 0 where
    operand : Token → String → Expr
    nil_lit : Expr
    name_lit : String → Expr
    paren : Expr → Expr
    unary : Token → Expr → Expr
    binary : Token → Expr → Expr → Expr
    cond : Expr → Expr → Expr → Expr
    selector nullish_selector : Expr → Expr → Expr
    index : Expr → Expr → Expr
    slice : Expr → Bound → Bound → Expr

  -- A bound of a slice, or none.
  pub data Bound : Type 0 where
    no_bound : Bound
    bound : Expr → Bound

-- A token of the scanner with its text; behind the last one comes `eof`.
abbrev pub Tokens : Type 0
Tokens = List (Token × String)
