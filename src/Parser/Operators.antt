-- ===== src/Parser/Operators.antt =====
-- What the parser does with printed operators and conditionals.
use mathlib.Core.Path.{subst}
use gad.Prelude.{◌+◌, ◌≤◌, ◌≡◌, refl, sym, true, false, [], ◌∷◌, ◌++◌, arith, ◌⊎◌, inl, inr}
use gad.Token.{Token, precedence}
use gad.Parser.{Expr, Tokens, nil_lit, unary, binary, cond}
use gad.Parser.Tokens.{
  head, next_token, suffix_of, is_prefix, is_question, is_colon, is_lambda, is_nil_lit, NullTest,
  null_test_of, no_test, tests_null, tests_not_null,
}
use gad.Parser.Expressions.{
  parsed, combine, combine_by, null_or, parse_expr, parse_binary_expr, binary_loop,
  parse_unary_expr,
}
use gad.Parser.Printer.{mark, print, level, IsParse, UnaryFits}
use gad.Parser.Steps.{From, weaken, expr-cond_step, cond-step, prefix-step, loop-step, loop-stop}
use gad.Parser.Starts.{precedence→stops, precedence-le}
use gad.Parser.Operands.{regroup, nil-Primary, before, colon-Closed}
use gad.Parser.Claims.{
  cost, Stops, Unary, Binary, Full, Reads, Binary→Reads, Unary→Reads, Primary→Reads,
}

operator-Stops : (tok : Token) (ts : Tokens) → 1 ≤ precedence tok → Stops (mark tok ∷ ts)
unfolding head
operator-Stops tok ts h = precedence→stops tok h

combine_by-binary :
    (t : NullTest) (op : Token) (l r : Expr)
    → (t ≡ no_test) ⊎ ((is_nil_lit l ≡ false) × (is_nil_lit r ≡ false))
    → combine_by t op l r ≡ binary op l r
unfolding combine_by null_or
combine_by-binary no_test op l r h = refl
combine_by-binary tests_null op l r (inl e) = ground (arith, e)
combine_by-binary tests_not_null op l r (inl e) = ground (arith, e)
combine_by-binary tests_null op l r (inr (a, b)) = rw (a, b) refl
combine_by-binary tests_not_null op l r (inr (a, b)) = rw (a, b) refl

combine-eq_binary :
    (op : Token) (l r : Expr)
    → (null_test_of op ≡ no_test) ⊎ ((is_nil_lit l ≡ false) × (is_nil_lit r ≡ false))
    → combine op l r ≡ binary op l r
unfolding combine
combine-eq_binary op l r h = combine_by-binary (null_test_of op) op l r h

pub binary-Binary :
    (op : Token) (l r : Expr) → IsParse (binary op l r) → Reads l → Reads r → Binary (binary op l r)
unfolding print cost level IsParse head next_token
binary-Binary op l r (one, left, right, test, hl, hr) readl readr p n ts res le s low k =
    let rest = print r ++ ts in
    regroup (λ g. parse_binary_expr g p) (n + cost (binary op l r) + 3) (print l) (mark op)
      (print r) ts
      (weaken
        (readl.as_binary (omega arith) p (n + cost r + 5) (mark op ∷ rest) res (omega arith)
          (operator-Stops op rest one) left
          (weaken
            (loop-step (n + cost r + 4) (mark op ∷ rest) res p l r ts le
              (weaken
                (readr.as_binary (omega arith) (precedence op + 1) 1 ts (parsed r ts) (omega arith)
                  s (omega arith) (loop-stop (precedence op + 1) r ts (omega arith)))
                (omega arith))
              (subst (λ e. From (n + cost r + 4) (λ g. binary_loop g p e ts) res)
                (sym (combine-eq_binary op l r test)) (weaken k (omega arith))))
            (omega arith)))
        (omega arith))

pub nil-Reads : Reads nil_lit
unfolding IsParse level
nil-Reads = Primary→Reads nil_lit tt refl nil-Primary

null_or-nil : (op tok : Token) (x : Expr) → null_or op tok x nil_lit ≡ unary tok x
unfolding null_or is_nil_lit
null_or-nil op tok nil_lit = refl
null_or-nil op tok _ = refl

nil_operand :
    (op : Token) (ts : Tokens)
    → Stops ts
    → precedence (head ts) ≤ precedence op
    → From 6
        (λ g. parse_binary_expr g (precedence op + 1) (mark Token.nil ∷ ts))
        (parsed nil_lit ts)
unfolding level cost print
nil_operand op ts s low =
    weaken
      (nil-Reads.as_binary (omega arith) (precedence op + 1) 1 ts (parsed nil_lit ts)
        (omega (arith, precedence-le op)) s (omega (arith, precedence-le op))
        (loop-stop (precedence op + 1) nil_lit ts (omega arith)))
      (omega arith)

-- A comparison with nil, whose operator is `op`.
null-Binary :
    (op tok : Token) (x : Expr)
    → level (unary tok x) ≡ 4
    → print (unary tok x) ≡ print x ++ mark op ∷ mark Token.nil ∷ []
    → precedence op ≡ 4
    → combine op x nil_lit ≡ unary tok x
    → 4 ≤ level x
    → Reads x
    → Binary (unary tok x)
unfolding head next_token cost
null-Binary op tok x four same prec comb l reads p n ts res le s low k =
    let rest = print nil_lit ++ ts in
    subst (λ us. From (n + cost (unary tok x) + 3) (λ g. parse_binary_expr g p (us ++ ts)) res)
      (sym same)
      (regroup (λ g. parse_binary_expr g p) (n + cost (unary tok x) + 3) (print x) (mark op)
        (mark Token.nil ∷ []) ts
        (weaken
          (reads.as_binary (omega arith) p (n + 7) (mark op ∷ mark Token.nil ∷ ts) res
            (omega (arith, four)) (operator-Stops op (mark Token.nil ∷ ts) (omega (arith, prec)))
            (omega (arith, prec))
            (weaken
              (loop-step (n + 6) (mark op ∷ mark Token.nil ∷ ts) res p x nil_lit ts
                (omega (arith, four, prec))
                (weaken (nil_operand op ts s (omega (arith, low, four, prec))) (omega arith))
                (subst (λ e. From (n + 6) (λ g. binary_loop g p e ts) res) (sym comb)
                  (weaken k (omega arith))))
              (omega arith)))
          (omega arith)))

prefix-Unary :
    (tok : Token) (x : Expr)
    → print (unary tok x) ≡ mark tok ∷ print x
    → is_prefix tok ≡ true
    → 9 ≤ level x
    → Reads x
    → Unary (unary tok x)
unfolding head next_token cost
prefix-Unary tok x same pre l reads ts s =
    subst
      (λ us. From (cost x + 7 + 2) (λ g. parse_unary_expr g (us ++ ts)) (parsed (unary tok x) ts))
      (sym same)
      (weaken
        (prefix-step (cost x + 2) (mark tok ∷ (print x ++ ts)) x ts pre (reads.as_unary l ts s))
        (omega arith))

pub unary-Reads : (tok : Token) (x : Expr) → UnaryFits tok (level x) → Reads x → Reads (unary tok x)
unfolding level print is_prefix precedence combine null_test_of combine_by
unary-Reads Token.null x h reads = Binary→Reads (unary Token.null x) (omega arith) (omega arith) (
    null-Binary Token.equal Token.null x refl refl refl (null_or-nil Token.equal Token.null x) h
      reads)
unary-Reads Token.not_null x h reads =
    Binary→Reads (unary Token.not_null x) (omega arith) (omega arith) (
      null-Binary Token.not_equal Token.not_null x refl refl refl
        (null_or-nil Token.not_equal Token.not_null x) h reads)
unary-Reads Token.add x h reads =
    Unary→Reads (unary Token.add x) refl (prefix-Unary Token.add x refl refl h.1 reads)
unary-Reads Token.sub x h reads =
    Unary→Reads (unary Token.sub x) refl (prefix-Unary Token.sub x refl refl h.1 reads)
unary-Reads Token.not x h reads =
    Unary→Reads (unary Token.not x) refl (prefix-Unary Token.not x refl refl h.1 reads)
unary-Reads Token.xor x h reads =
    Unary→Reads (unary Token.xor x) refl (prefix-Unary Token.xor x refl refl h.1 reads)
unary-Reads _ x h reads = ground (arith, h.0)

pub cond-Full : (c t e : Expr) → 1 ≤ level c → Reads c → Reads t → Reads e → Full (cond c t e)
unfolding print cost head suffix_of is_lambda precedence is_question is_colon next_token
cond-Full c t e l readc readt reade ts ends =
    let behind_colon = mark Token.colon ∷ (print e ++ ts) in
    let behind_question = mark Token.question ∷ (print t ++ behind_colon) in
    let N = cost c + cost t + cost e + 9 in
    let r = parsed (cond c t e) ts in
    regroup parse_expr (cost (cond c t e) + 5) (print c) (mark Token.question)
      (print t ++ mark Token.colon ∷ print e) ts
      (regroup (λ g u. parse_expr g (print c ++ mark Token.question ∷ u)) (cost (cond c t e) + 5)
        (print t) (mark Token.colon) (print e) ts
        (weaken
          (expr-cond_step N (print c ++ behind_question) c behind_question r refl
            (weaken
              (readc.as_binary l 1 1 behind_question (parsed c behind_question) l (refl, refl)
                (omega arith) (loop-stop 1 c behind_question (omega arith)))
              (omega arith))
            (weaken
              (cond-step (cost t + cost e + 5) behind_question t behind_colon c e ts
                (weaken (before t Token.colon (print e ++ ts) readt colon-Closed) (omega arith))
                refl (weaken (reade.as_full ts ends) (omega arith)))
              (omega arith)))
          (omega arith)))
