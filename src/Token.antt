-- ===== src/Token.antt =====
-- token/token.go: the tokens, with the markers between their groups, the precedence of the operators
-- and the groups that the parser asks for. `String` and the table of keywords print and read names.
use gad.Prelude.{ℕ, Bool, true, false, ◌&&◌, ltb, ◌==◌, List, [], ◌∷◌, if◌then◌else◌}

pub data Token : Type 0 where
  illegal eof comment config_start config_end to_text_begin to_text_end code_begin : Token
  code_end literal_begin ident int uint float decimal char string string_template : Token
  raw_string raw_string_template raw_heredoc raw_heredoc_template literal_end : Token
  operator_begin binary_operator_begin add sub mul quo rem and or xor shl shr and_not : Token
  l_and equal not_equal less greater less_eq greater_eq tilde double_tilde : Token
  triple_tilde binary_operator_end default_operators_begin nullich_coalesce l_or : Token
  default_operators_end assign_operator_begin define assign add_assign sub_assign : Token
  mul_assign quo_assign rem_assign and_assign or_assign xor_assign shl_assign : Token
  shr_assign and_not_assign l_or_assign nullich_assign assign_operator_end : Token
  unary_operator_begin inc dec unary_operator_end lambda not null not_null pipe : Token
  l_paren r_paren l_brack r_brack comma period r_brace l_brace semicolon colon : Token
  question nullish_selector operator_end keywork_begin then_ do_ begin_ end_ break : Token
  continue else_ for func if_ return true_ false_ yes no in_ nil import param global : Token
  var const try catch finally throw callee named_args args std_in std_out std_err : Token
  dot_name dot_file is_module keyword_end : Token

-- The number that `iota` gives.
unfoldable pub token_code : Token → ℕ
token_code illegal = 0
token_code eof = 1
token_code comment = 2
token_code config_start = 3
token_code config_end = 4
token_code to_text_begin = 5
token_code to_text_end = 6
token_code code_begin = 7
token_code code_end = 8
token_code literal_begin = 9
token_code ident = 10
token_code int = 11
token_code uint = 12
token_code float = 13
token_code decimal = 14
token_code char = 15
token_code string = 16
token_code string_template = 17
token_code raw_string = 18
token_code raw_string_template = 19
token_code raw_heredoc = 20
token_code raw_heredoc_template = 21
token_code literal_end = 22
token_code operator_begin = 23
token_code binary_operator_begin = 24
token_code add = 25
token_code sub = 26
token_code mul = 27
token_code quo = 28
token_code rem = 29
token_code and = 30
token_code or = 31
token_code xor = 32
token_code shl = 33
token_code shr = 34
token_code and_not = 35
token_code l_and = 36
token_code equal = 37
token_code not_equal = 38
token_code less = 39
token_code greater = 40
token_code less_eq = 41
token_code greater_eq = 42
token_code tilde = 43
token_code double_tilde = 44
token_code triple_tilde = 45
token_code binary_operator_end = 46
token_code default_operators_begin = 47
token_code nullich_coalesce = 48
token_code l_or = 49
token_code default_operators_end = 50
token_code assign_operator_begin = 51
token_code define = 52
token_code assign = 53
token_code add_assign = 54
token_code sub_assign = 55
token_code mul_assign = 56
token_code quo_assign = 57
token_code rem_assign = 58
token_code and_assign = 59
token_code or_assign = 60
token_code xor_assign = 61
token_code shl_assign = 62
token_code shr_assign = 63
token_code and_not_assign = 64
token_code l_or_assign = 65
token_code nullich_assign = 66
token_code assign_operator_end = 67
token_code unary_operator_begin = 68
token_code inc = 69
token_code dec = 70
token_code unary_operator_end = 71
token_code lambda = 72
token_code not = 73
token_code null = 74
token_code not_null = 75
token_code pipe = 76
token_code l_paren = 77
token_code r_paren = 78
token_code l_brack = 79
token_code r_brack = 80
token_code comma = 81
token_code period = 82
token_code r_brace = 83
token_code l_brace = 84
token_code semicolon = 85
token_code colon = 86
token_code question = 87
token_code nullish_selector = 88
token_code operator_end = 89
token_code keywork_begin = 90
token_code then_ = 91
token_code do_ = 92
token_code begin_ = 93
token_code end_ = 94
token_code break = 95
token_code continue = 96
token_code else_ = 97
token_code for = 98
token_code func = 99
token_code if_ = 100
token_code return = 101
token_code true_ = 102
token_code false_ = 103
token_code yes = 104
token_code no = 105
token_code in_ = 106
token_code nil = 107
token_code import = 108
token_code param = 109
token_code global = 110
token_code var = 111
token_code const = 112
token_code try = 113
token_code catch = 114
token_code finally = 115
token_code throw = 116
token_code callee = 117
token_code named_args = 118
token_code args = 119
token_code std_in = 120
token_code std_out = 121
token_code std_err = 122
token_code dot_name = 123
token_code dot_file = 124
token_code is_module = 125
token_code keyword_end = 126

unfoldable pub precedence : Token → ℕ
precedence l_or = 2
precedence nullich_coalesce = 2
precedence l_and = 3
precedence equal = 4
precedence not_equal = 4
precedence less = 4
precedence less_eq = 4
precedence greater = 4
precedence greater_eq = 4
precedence null = 4
precedence not_null = 4
precedence add = 5
precedence sub = 5
precedence or = 5
precedence xor = 5
precedence mul = 6
precedence quo = 6
precedence rem = 6
precedence shl = 6
precedence shr = 6
precedence and = 6
precedence and_not = 6
precedence pipe = 7
precedence tilde = 8
precedence double_tilde = 8
precedence triple_tilde = 8
precedence _ = 0

unfoldable pub is_binary_operator : Token → Bool
is_binary_operator add = true
is_binary_operator sub = true
is_binary_operator mul = true
is_binary_operator quo = true
is_binary_operator rem = true
is_binary_operator less = true
is_binary_operator less_eq = true
is_binary_operator greater = true
is_binary_operator greater_eq = true
is_binary_operator and = true
is_binary_operator or = true
is_binary_operator xor = true
is_binary_operator and_not = true
is_binary_operator shl = true
is_binary_operator shr = true
is_binary_operator equal = true
is_binary_operator not_equal = true
is_binary_operator tilde = true
is_binary_operator double_tilde = true
is_binary_operator triple_tilde = true
is_binary_operator _ = false

unfoldable pub is_literal : Token → Bool
unfolding token_code
is_literal tok =
    ltb (token_code literal_begin) (token_code tok) && ltb (token_code tok) (token_code literal_end)

unfoldable pub is_operator : Token → Bool
unfolding token_code
is_operator tok =
    ltb (token_code operator_begin) (token_code tok)
    && ltb (token_code tok) (token_code operator_end)

unfoldable pub is_keyword : Token → Bool
unfolding token_code
is_keyword tok =
    ltb (token_code keywork_begin) (token_code tok) && ltb (token_code tok) (token_code keyword_end)

-- `tok == other`, which compares the numbers.
unfoldable pub same_token : Token → Token → Bool
same_token a b = token_code a == token_code b

unfoldable pub is_one_of : Token → List Token → Bool
unfolding same_token
is_one_of tok [] = false
is_one_of tok (o ∷ others) = if same_token o tok then true else is_one_of tok others

unfoldable pub is_block_start : Token → Bool
is_block_start l_brace = true
is_block_start then_ = true
is_block_start begin_ = true
is_block_start do_ = true
is_block_start _ = false

unfoldable pub is_block_end : Token → Bool
is_block_end r_brace = true
is_block_end end_ = true
is_block_end _ = false
