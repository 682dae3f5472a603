-- ===== src/Parser/Tokens.antt =====
-- What the switches of the parser ask of the next token.
use gad.Prelude.{String, Bool, true, false, not, ◌&&◌, [], ◌∷◌, if◌then◌else◌}
use text.Mathlib.Text.{◌==◌ as str_eq}
use gad.Token.{Token}
use gad.Parser.{Expr, Tokens, operand, nil_lit}

-- `p.Token.Token`
unfoldable pub head : Tokens → Token
head [] = Token.eof
head ((tok, text) ∷ ts) = tok

-- `p.Token.Literal`
unfoldable pub text_of : Tokens → String
text_of [] = ""
text_of ((tok, text) ∷ ts) = text

unfoldable pub is_comment : Token → Bool
is_comment Token.comment = true
is_comment _ = false

-- The marks around code and an empty text, unless comments stand before them.
unfoldable pub is_passed : Token → String → Bool
is_passed Token.code_begin text = true
is_passed Token.code_end text = true
is_passed Token.raw_string text = str_eq text ""
is_passed _ text = false

-- The tokens that `p.Next()` makes current one after the other, from those of the scanner: `Next`
-- passes over marks, empty texts and comments, and takes any token behind comments. `commented` is
-- whether comments come just before; the parser keeps the marks when `IgnoreCodeBlockDisabled` is set,
-- which is not modelled.
unfoldable pub shown : Bool → Tokens → Tokens
shown commented [] = []
shown commented ((tok, text) ∷ ts) =
    let on = shown true ts in
    let again = shown false ts in
    if is_comment tok
    then on
    else if not commented && is_passed tok text
    then again
    else (tok, text) ∷ again

-- `p.Next()`, in the tokens that are shown.
unfoldable pub next_token : Tokens → Tokens
next_token [] = []
next_token (t ∷ ts) = ts

-- The cases of `ParseOperand`: an operand of one token that is never refused, `nil`, a parenthesis, one
-- of the operands that are not modelled, or an error. A character and a decimal number can be refused
-- for their text, which is not modelled.
pub data Start : Type 0 where
  single null opens elsewhere nothing : Start

unfoldable pub start_of : Token → Start
start_of Token.ident = single
start_of Token.int = single
start_of Token.uint = single
start_of Token.float = single
start_of Token.decimal = elsewhere
start_of Token.char = elsewhere
start_of Token.string = single
start_of Token.true_ = single
start_of Token.false_ = single
start_of Token.yes = single
start_of Token.no = single
start_of Token.nil = null
start_of Token.std_in = single
start_of Token.std_out = single
start_of Token.std_err = single
start_of Token.dot_name = single
start_of Token.dot_file = single
start_of Token.is_module = single
start_of Token.callee = single
start_of Token.args = single
start_of Token.named_args = single
start_of Token.import = elsewhere
start_of Token.l_paren = opens
start_of Token.begin_ = elsewhere
start_of Token.l_brack = elsewhere
start_of Token.l_brace = elsewhere
start_of Token.func = elsewhere
start_of Token.raw_string = elsewhere
start_of Token.throw = elsewhere
start_of Token.return = elsewhere
start_of _ = nothing

-- The cases of the loop of `ParsePrimaryExpr`.
pub data Suffix : Type 0 where
  nullish period brack call none_left : Suffix

unfoldable pub suffix_of : Token → Suffix
suffix_of Token.nullish_selector = nullish
suffix_of Token.period = period
suffix_of Token.l_brack = brack
suffix_of Token.l_paren = call
suffix_of _ = none_left

-- The cases of `ParseSelectorNode`, after the test of its caller.
pub data Select : Type 0 where
  by_name by_keyword by_paren wrong : Select

unfoldable pub select_of : Token → Select
select_of Token.ident = by_name
select_of Token.l_paren = by_paren
select_of Token.end_ = by_keyword
select_of Token.begin_ = by_keyword
select_of Token.else_ = by_keyword
select_of _ = wrong

-- `String` of the keywords that can follow a period.
unfoldable pub keyword_text : Token → String
keyword_text Token.end_ = "end"
keyword_text Token.begin_ = "begin"
keyword_text Token.else_ = "else"
keyword_text _ = ""

unfoldable pub is_prefix : Token → Bool
is_prefix Token.add = true
is_prefix Token.sub = true
is_prefix Token.not = true
is_prefix Token.xor = true
is_prefix _ = false

unfoldable pub is_question : Token → Bool
is_question Token.question = true
is_question _ = false

unfoldable pub is_colon : Token → Bool
is_colon Token.colon = true
is_colon _ = false

unfoldable pub is_r_brack : Token → Bool
is_r_brack Token.r_brack = true
is_r_brack _ = false

-- `p.Token.Token != token.RBrack && p.Token.Token != token.EOF`
unfoldable pub may_bound : Token → Bool
may_bound Token.r_brack = false
may_bound Token.eof = false
may_bound _ = true

unfoldable pub is_r_paren : Token → Bool
is_r_paren Token.r_paren = true
is_r_paren _ = false

unfoldable pub is_semicolon : Token → Bool
is_semicolon Token.semicolon = true
is_semicolon _ = false

unfoldable pub is_lambda : Token → Bool
is_lambda Token.lambda = true
is_lambda _ = false

-- `SkipSpace`
unfoldable pub skip_space : Tokens → Tokens
skip_space [] = []
skip_space ((tok, text) ∷ ts) =
    let rest = skip_space ts in
    if is_semicolon tok && str_eq text "\n" then rest else (tok, text) ∷ ts

-- The tokens that make a parenthesis a list: at its start `*` and the end, behind an expression a
-- type, a value, another item.
unfoldable pub starts_list : Token → Bool
starts_list Token.mul = true
starts_list Token.r_paren = true
starts_list _ = false

unfoldable pub lists_on : Token → Bool
lists_on Token.assign = true
lists_on Token.comma = true
lists_on Token.semicolon = true
lists_on _ = false

unfoldable pub is_ident : Token → Bool
is_ident Token.ident = true
is_ident _ = false

-- `op == token.Equal || op == token.NotEqual`, and the operator that stands for it beside `nil`.
pub data NullTest : Type 0 where
  tests_null tests_not_null no_test : NullTest

unfoldable pub null_test_of : Token → NullTest
null_test_of Token.equal = tests_null
null_test_of Token.not_equal = tests_not_null
null_test_of _ = no_test

unfoldable pub is_nil_lit : Expr → Bool
is_nil_lit nil_lit = true
is_nil_lit _ = false

unfoldable pub is_ident_expr : Expr → Bool
unfolding is_ident
is_ident_expr (operand tok text) = is_ident tok
is_ident_expr _ = false
