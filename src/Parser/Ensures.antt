-- ===== src/Parser/Ensures.antt =====
-- Statements on every result of the parser: that fuel was left, and what holds of an expression and
-- the tokens behind it where one was read.
use gad.Prelude.{
  ℕ, suc, ◌≤◌, ◌<◌, ◌≡◌, ◌≢◌, refl, sym, Bool, true, false, ◌&&◌, [], ◌∷◌, arith, if◌then◌else◌,
  length, ◌⊎◌, inl, inr, Bool-cases,
}
use text.Mathlib.Text.{◌==◌ as str_eq}
use gad.Token.{Token, precedence}
use gad.Parser.{Expr, Tokens, unary}
use gad.Parser.Tokens.{
  Start, start_of, single, null, opens, elsewhere, nothing, Suffix, suffix_of, nullish, period,
  brack, call, none_left, Select, select_of, by_name, by_keyword, by_paren, wrong, head, next_token,
  is_prefix, is_nil_lit, NullTest, null_test_of, no_test, tests_null, tests_not_null, skip_space,
  is_semicolon,
}
use gad.Parser.Expressions.{
  Parsed, parsed, failed, not_covered, out_of_fuel, and_then, expect, combine, combine_by, null_or,
}
use gad.Parser.Printer.{level, IsParse, UnaryFits}

-- `Q` holds of what was read and what is left.
unfoldable pub Ensures : (Expr → Tokens → Type 0) → Parsed Expr → Type 0
Ensures Q (parsed x ts) = Q x ts
Ensures Q failed = Unit
Ensures Q not_covered = Unit
Ensures Q out_of_fuel = ⊥

pub Ensures-and_then :
    (Q R : Expr → Tokens → Type 0) (r : Parsed Expr) (k : Expr → Tokens → Parsed Expr)
    → Ensures Q r
    → ((x : Expr) (ts : Tokens) → Q x ts → Ensures R (k x ts))
    → Ensures R (and_then r k)
unfolding Ensures and_then
Ensures-and_then Q R (parsed x ts) k h f = f x ts h
Ensures-and_then Q R failed k h f = tt
Ensures-and_then Q R not_covered k h f = tt
Ensures-and_then Q R out_of_fuel k h f = h

pub Ensures-if :
    (Q : Expr → Tokens → Type 0) (b : Bool) (r s : Parsed Expr)
    → (b ≡ true → Ensures Q r)
    → (b ≡ false → Ensures Q s)
    → Ensures Q (if b then r else s)
Ensures-if Q true r s h k = h refl
Ensures-if Q false r s h k = k refl

pub Ensures-expect :
    (Q : Expr → Tokens → Type 0) (test : Token → Bool) (x : Expr) (ts : Tokens)
    → (test (head ts) ≡ true → Q x (next_token ts))
    → Ensures Q (expect test x ts)
unfolding expect Ensures
Ensures-expect Q test x ts h =
    Ensures-if Q (test (head ts)) (parsed x (next_token ts)) failed h (λ e. tt)

-- A token other than the end is taken off.
pub length-next_token :
    (test : Token → Bool) (ts : Tokens)
    → test Token.eof ≡ false
    → test (head ts) ≡ true
    → suc (length (next_token ts)) ≤ length ts
unfolding head next_token
length-next_token test [] h k = ground (arith, h, k)
length-next_token test (t ∷ ts) h k = omega arith

pub length-next_token_le : (ts : Tokens) → length (next_token ts) ≤ length ts
unfolding next_token
length-next_token_le [] = omega arith
length-next_token_le (t ∷ ts) = omega arith

pub length-next_operator :
    (ts : Tokens) → 1 ≤ precedence (head ts) → suc (length (next_token ts)) ≤ length ts
unfolding head next_token precedence
length-next_operator [] h = absurd (omega arith)
length-next_operator (t ∷ ts) h = omega arith

pub length-skip_space : (ts : Tokens) → length (skip_space ts) ≤ length ts
unfolding skip_space
length-skip_space [] = omega arith
length-skip_space ((tok, text) ∷ ts) =
    either (is_semicolon tok && str_eq text "\n") (skip_space ts) (length-skip_space ts)
  where
    either :
        (b : Bool) (rest : Tokens)
        → length rest ≤ length ts
        → length (if b then rest else (tok, text) ∷ ts) ≤ suc (length ts)
    either true rest h = omega arith
    either false rest h = omega arith

-- The node of an operator that holds its operands together.
null_test-precedence : (op : Token) → (null_test_of op ≡ no_test) ⊎ (precedence op ≡ 4)
unfolding null_test_of precedence
null_test-precedence Token.equal = inr refl
null_test-precedence Token.not_equal = inr refl
null_test-precedence _ = inl refl

pub prefix-UnaryFits : (tok : Token) (n : ℕ) → is_prefix tok ≡ true → 9 ≤ n → UnaryFits tok n
unfolding is_prefix
prefix-UnaryFits Token.null n h l = absurd (ground arith)
prefix-UnaryFits Token.not_null n h l = absurd (ground arith)
prefix-UnaryFits _ n h l = (h, l)

pub prefix-level : (tok : Token) (x : Expr) → is_prefix tok ≡ true → level (unary tok x) ≡ 9
unfolding is_prefix level
prefix-level Token.null x h = ground arith
prefix-level Token.not_null x h = ground arith
prefix-level _ x h = refl

-- What `combine` needs of its operands.
Operands : Token → Expr → Expr → Type 0
Operands op x y =
    (1 ≤ precedence op)
    × (precedence op ≤ level x)
    × (precedence op < level y)
    × IsParse x
    × IsParse y

IsNode : Token → Expr → Type 0
IsNode op e = IsParse e × (level e ≡ precedence op)

null_or-IsNode :
    (op tok : Token) (x y : Expr)
    → Operands op x y
    → ((e : Expr) → 4 ≤ level e → IsParse e → IsNode op (unary tok e))
    → precedence op ≡ 4
    → IsNode op (null_or op tok x y)
unfolding Operands IsNode null_or IsParse level
null_or-IsNode op tok x y (one, left, right, hx, hy) node four = elim (Bool-cases (is_nil_lit x)) [
  | inl a ↦ rw a (node y (omega (arith, four)) hy)
  | inr a ↦ rw a (elim (Bool-cases (is_nil_lit y)) [
    | inl b ↦ rw b (node x (omega (arith, four)) hx)
    | inr b ↦ rw b ((one, left, right, inr (a, b), hx, hy), refl)
  ])
]

combine_by-IsNode :
    (t : NullTest) (op : Token) (x y : Expr)
    → (null_test_of op ≡ t)
    → (t ≡ no_test) ⊎ (precedence op ≡ 4)
    → Operands op x y
    → IsNode op (combine_by t op x y)
unfolding combine_by Operands IsNode IsParse level
combine_by-IsNode no_test op x y same h (one, left, right, hx, hy) =
    ((one, left, right, inl same, hx, hy), refl)
combine_by-IsNode tests_null op x y same (inl e) o = ground (arith, e)
combine_by-IsNode tests_not_null op x y same (inl e) o = ground (arith, e)
combine_by-IsNode tests_null op x y same (inr four) o =
    null_or-IsNode op Token.null x y o (λ e l h. ((l, h), sym four)) four
combine_by-IsNode tests_not_null op x y same (inr four) o =
    null_or-IsNode op Token.not_null x y o (λ e l h. ((l, h), sym four)) four

-- The node of an operator is one that the parser can return, of the precedence of the operator, if
-- its operands hold together as tightly as the operator asks.
pub combine-IsParse :
    (op : Token) (x y : Expr)
    → 1 ≤ precedence op
    → precedence op ≤ level x
    → precedence op < level y
    → IsParse x
    → IsParse y
    → IsParse (combine op x y) × (level (combine op x y) ≡ precedence op)
unfolding combine Operands IsNode
combine-IsParse op x y one left right hx hy =
    combine_by-IsNode (null_test_of op) op x y refl (null_test-precedence op)
      (one, left, right, hx, hy)

-- The cases of the switches.
pub Ensures-suffix :
    (Q : Expr → Tokens → Type 0) (s : Suffix) (a b c d e : Parsed Expr)
    → (s ≡ nullish → Ensures Q a)
    → (s ≡ period → Ensures Q b)
    → (s ≡ brack → Ensures Q c)
    → (s ≡ call → Ensures Q d)
    → (s ≡ none_left → Ensures Q e)
    → Ensures Q (elim s [ nullish ↦ a | period ↦ b | brack ↦ c | call ↦ d | none_left ↦ e ])
Ensures-suffix Q nullish a b c d e ha hb hc hd he = ha refl
Ensures-suffix Q period a b c d e ha hb hc hd he = hb refl
Ensures-suffix Q brack a b c d e ha hb hc hd he = hc refl
Ensures-suffix Q call a b c d e ha hb hc hd he = hd refl
Ensures-suffix Q none_left a b c d e ha hb hc hd he = he refl

pub Ensures-select :
    (Q : Expr → Tokens → Type 0) (s : Select) (a b c d : Parsed Expr)
    → (s ≡ by_name → Ensures Q a)
    → (s ≡ by_keyword → Ensures Q b)
    → (s ≡ by_paren → Ensures Q c)
    → (s ≡ wrong → Ensures Q d)
    → Ensures Q (elim s [ by_name ↦ a | by_keyword ↦ b | by_paren ↦ c | wrong ↦ d ])
Ensures-select Q by_name a b c d ha hb hc hd = ha refl
Ensures-select Q by_keyword a b c d ha hb hc hd = hb refl
Ensures-select Q by_paren a b c d ha hb hc hd = hc refl
Ensures-select Q wrong a b c d ha hb hc hd = hd refl

pub Ensures-start :
    (Q : Expr → Tokens → Type 0) (s : Start) (a b c d e : Parsed Expr)
    → (s ≡ single → Ensures Q a)
    → (s ≡ null → Ensures Q b)
    → (s ≡ opens → Ensures Q c)
    → (s ≡ elsewhere → Ensures Q d)
    → (s ≡ nothing → Ensures Q e)
    → Ensures Q (elim s [ single ↦ a | null ↦ b | opens ↦ c | elsewhere ↦ d | nothing ↦ e ])
Ensures-start Q single a b c d e ha hb hc hd he = ha refl
Ensures-start Q null a b c d e ha hb hc hd he = hb refl
Ensures-start Q opens a b c d e ha hb hc hd he = hc refl
Ensures-start Q elsewhere a b c d e ha hb hc hd he = hd refl
Ensures-start Q nothing a b c d e ha hb hc hd he = he refl

pub suffix-next :
    (ts : Tokens) → suffix_of (head ts) ≢ none_left → suc (length (next_token ts)) ≤ length ts
unfolding head next_token suffix_of
suffix-next [] h = absurd (h refl)
suffix-next (t ∷ ts) h = omega arith

pub select-next :
    (ts : Tokens) → select_of (head ts) ≢ wrong → suc (length (next_token ts)) ≤ length ts
unfolding head next_token select_of
select-next [] h = absurd (h refl)
select-next (t ∷ ts) h = omega arith

pub start-next :
    (ts : Tokens) → start_of (head ts) ≢ nothing → suc (length (next_token ts)) ≤ length ts
unfolding head next_token start_of
start-next [] h = absurd (h refl)
start-next (t ∷ ts) h = omega arith
