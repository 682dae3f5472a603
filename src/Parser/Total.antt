-- ===== src/Parser/Total.antt =====
-- The fuel of `parse` always suffices, and what the parser returns has the shape that precedence and
-- associativity give.
use gad.Prelude.{
  ℕ, zero, suc, ◌+◌, ◌*◌, ◌≤◌, ◌<◌, ◌≡◌, ◌≢◌, refl, true, false, ◌&&◌, arith, length, ltb,
}
use mathlib.Core.Path.{subst}
use gad.Token.{Token, precedence}
use gad.Parser.{
  Expr, Bound, Tokens, paren, selector, nullish_selector, index, slice, no_bound, bound,
}
use gad.Parser.Tokens.{
  head, next_token, start_of, suffix_of, select_of, is_prefix, is_question, is_colon, is_r_brack,
  may_bound, is_r_paren, is_lambda, skip_space, lists_on, is_ident, is_ident_expr,
}
use gad.Parser.Expressions.{
  Parsed, parsed, failed, not_covered, out_of_fuel, combine, end_paren, makes_list, parse_expr,
  parse_binary_expr, binary_loop, parse_cond_expr, parse_unary_expr, parse_primary_expr,
  primary_loop, parse_selector_node, parse_index_or_slice, slice_from, parse_operand, parse,
}
use gad.Parser.Printer.{level, IsParse, IsSelector, IsBound}
use gad.Parser.Starts.{precedence-le}
use gad.Parser.Ensures.{
  Ensures, Ensures-and_then, Ensures-if, Ensures-expect, length-next_token, length-next_token_le,
  length-next_operator, length-skip_space, combine-IsParse, Ensures-suffix, Ensures-select,
  Ensures-start, suffix-next, select-next, start-next, prefix-UnaryFits, prefix-level,
}

-- What a call leaves: an expression of a level, and fewer tokens than `n`.
unfoldable Read : ℕ → ℕ → Expr → Tokens → Type 0
Read l n x ts = IsParse x × (l ≤ level x) × (length ts < n)

-- The same, and no operator that binds as tightly as `p` is next.
unfoldable ReadBinary : ℕ → ℕ → Expr → Tokens → Type 0
ReadBinary p n x ts = IsParse x × (p ≤ level x) × (length ts < n) × (precedence (head ts) < p)

unfoldable ReadSelector : ℕ → Expr → Tokens → Type 0
ReadSelector n s ts = IsSelector s × (length ts < n)

end_paren-Ensures :
    (n : ℕ) (e : Expr) (ts : Tokens)
    → IsParse e
    → length ts < n
    → Ensures (Read 10 n) (end_paren e ts)
unfolding end_paren Ensures Read IsParse level
end_paren-Ensures n e ts h l =
    let rest = skip_space ts in
    Ensures-if (Read 10 n) (is_ident_expr e && is_ident (head rest)) not_covered _ (λ q. tt)
      (λ q.
        Ensures-if (Read 10 n) (lists_on (head rest)) not_covered _ (λ q. tt)
          (λ q.
            Ensures-if (Read 10 n) (is_r_paren (head rest)) _ failed
              (λ q.
                Ensures-if (Read 10 n) (is_lambda (head (next_token rest))) not_covered _ (λ q. tt)
                  (λ q. (
                    h,
                    omega arith,
                    omega (arith, length-skip_space ts, length-next_token_le rest),
                  )))
              (λ q. tt)))

eof_question : is_question Token.eof ≡ false
unfolding is_question
eof_question = refl

eof_prefix : is_prefix Token.eof ≡ false
unfolding is_prefix
eof_prefix = refl

eof_colon : is_colon Token.eof ≡ false
unfolding is_colon
eof_colon = refl

weaken_level : (r : Parsed Expr) (n : ℕ) → Ensures (Read 10 n) r → Ensures (Read 9 n) r
unfolding Ensures Read
weaken_level (parsed x ts) n (hx, lx, l) = (hx, omega arith, l)
weaken_level failed n h = tt
weaken_level not_covered n h = tt
weaken_level out_of_fuel n h = h

mutual
  unfolding parse_expr Ensures Read ReadBinary ReadSelector IsParse level

  expr-Ensures :
      (f : ℕ) (ts : Tokens) → 7 * length ts + 5 ≤ f → Ensures (Read 0 (length ts)) (parse_expr f ts)
  expr-Ensures zero ts h = absurd (omega arith)
  expr-Ensures (suc f) ts h =
      Ensures-and_then (ReadBinary 1 (length ts)) (Read 0 (length ts)) (parse_binary_expr f 1 ts) _
        (binary-Ensures f 1 ts (omega arith) (omega arith) (omega arith))
        (λ x rest (hx, lx, l, low).
          Ensures-if (Read 0 (length ts)) (is_question (head rest)) _ _
            (λ q. cond-Ensures f x rest (length ts) (omega arith) q l hx lx)
            (λ q. (hx, omega arith, l)))

  binary-Ensures :
      (f p : ℕ) (ts : Tokens)
      → 7 * length ts + 4 ≤ f
      → 1 ≤ p
      → p ≤ 9
      → Ensures (ReadBinary p (length ts)) (parse_binary_expr f p ts)
  binary-Ensures zero p ts h one nine = absurd (omega arith)
  binary-Ensures (suc f) p ts h one nine =
      Ensures-and_then (Read 9 (length ts)) (ReadBinary p (length ts)) (parse_unary_expr f ts) _
        (unary-Ensures f ts (omega arith))
        (λ x rest (hx, lx, l).
          loop-Ensures f p x rest (length ts) (omega arith) one l hx (omega arith)
            (omega (arith, precedence-le (head rest))))

  loop-Ensures :
      (f p : ℕ) (x : Expr) (ts : Tokens) (n : ℕ)
      → 7 * length ts + 1 ≤ f
      → 1 ≤ p
      → length ts < n
      → IsParse x
      → p ≤ level x
      → precedence (head ts) ≤ level x
      → Ensures (ReadBinary p n) (binary_loop f p x ts)
  loop-Ensures zero p x ts n h one l hx px low = absurd (omega arith)
  loop-Ensures (suc f) p x ts n h one l hx px low =
      let op = head ts in
      Ensures-if (ReadBinary p n) (ltb (precedence op) p) _ _ (λ q. (hx, px, l, ground arith))
        (λ q.
          let binds : p ≤ precedence op = ground arith in
          let shorter = length-next_operator ts (omega arith) in
          Ensures-and_then (ReadBinary (precedence op + 1) (length (next_token ts)))
            (ReadBinary p n) (parse_binary_expr f (precedence op + 1) (next_token ts)) _
            (binary-Ensures f (precedence op + 1) (next_token ts) (omega arith) (omega arith)
              (omega (arith, precedence-le op)))
            (λ y rest (hy, ly, m, lowy).
              let (node, same) = combine-IsParse op x y (omega arith) low (omega arith) hx hy in
              loop-Ensures f p (combine op x y) rest n (omega arith) one (omega arith) node
                (omega (arith, same)) (omega (arith, same))))

  cond-Ensures :
      (f : ℕ) (c : Expr) (ts : Tokens) (n : ℕ)
      → 7 * length ts + 1 ≤ f
      → is_question (head ts) ≡ true
      → length ts < n
      → IsParse c
      → 1 ≤ level c
      → Ensures (Read 0 n) (parse_cond_expr f c ts)
  cond-Ensures zero c ts n h q l hc lc = absurd (omega arith)
  cond-Ensures (suc f) c ts n h q l hc lc =
      let shorter = length-next_token is_question ts eof_question q in
      Ensures-and_then (Read 0 (length (next_token ts))) (Read 0 n) (parse_expr f (next_token ts)) _
        (expr-Ensures f (next_token ts) (omega arith))
        (λ t rest (ht, lt, m).
          Ensures-if (Read 0 n) (is_colon (head rest)) _ _
            (λ k.
              Ensures-and_then (Read 0 (length (next_token rest))) (Read 0 n)
                (parse_expr f (next_token rest)) _
                (expr-Ensures f (next_token rest) (omega (arith, length-next_token_le rest)))
                (λ e rest₂ (he, le, k).
                  ((lc, hc, ht, he), omega arith, omega (arith, length-next_token_le rest))))
            (λ k. ((lc, hc, ht, ht), omega arith, omega arith)))

  unary-Ensures :
      (f : ℕ) (ts : Tokens)
      → 7 * length ts + 3 ≤ f
      → Ensures (Read 9 (length ts)) (parse_unary_expr f ts)
  unary-Ensures zero ts h = absurd (omega arith)
  unary-Ensures (suc f) ts h =
      Ensures-if (Read 9 (length ts)) (is_prefix (head ts)) _ _
        (λ q.
          let shorter = length-next_token is_prefix ts eof_prefix q in
          Ensures-and_then (Read 9 (length (next_token ts))) (Read 9 (length ts))
            (parse_unary_expr f (next_token ts)) _ (unary-Ensures f (next_token ts) (omega arith))
            (λ x rest (hx, lx, l). (
              (prefix-UnaryFits (head ts) (level x) q lx, hx),
              omega (arith, prefix-level (head ts) x q),
              omega arith,
            )))
        (λ q.
          weaken_level (parse_primary_expr f ts) (length ts) (primary-Ensures f ts (omega arith)))

  primary-Ensures :
      (f : ℕ) (ts : Tokens)
      → 7 * length ts + 2 ≤ f
      → Ensures (Read 10 (length ts)) (parse_primary_expr f ts)
  primary-Ensures zero ts h = absurd (omega arith)
  primary-Ensures (suc f) ts h =
      Ensures-and_then (Read 10 (length ts)) (Read 10 (length ts)) (parse_operand f ts) _
        (operand-Ensures f ts (omega arith))
        (λ x rest (hx, lx, l). suffix-Ensures f x rest (length ts) (omega arith) l hx lx)

  suffix-Ensures :
      (f : ℕ) (x : Expr) (ts : Tokens) (n : ℕ)
      → 7 * length ts + 1 ≤ f
      → length ts < n
      → IsParse x
      → 10 ≤ level x
      → Ensures (Read 10 n) (primary_loop f x ts)
  suffix-Ensures zero x ts n h l hx lx = absurd (omega arith)
  suffix-Ensures (suc f) x ts n h l hx lx =
      Ensures-suffix (Read 10 n) (suffix_of (head ts)) _ _ _ _ _
        (λ q.
          let shorter = suffix-next ts (λ e. ground (arith, q, e)) in
          Ensures-and_then (ReadSelector (length (next_token ts))) (Read 10 n)
            (parse_selector_node f (next_token ts)) _
            (selector-Ensures f (next_token ts) (omega arith))
            (λ s rest (hs, m).
              suffix-Ensures f (nullish_selector x s) rest n (omega arith) (omega arith)
                (lx, hx, hs) (omega arith)))
        (λ q.
          let shorter = suffix-next ts (λ e. ground (arith, q, e)) in
          Ensures-and_then (ReadSelector (length (next_token ts))) (Read 10 n)
            (parse_selector_node f (next_token ts)) _
            (selector-Ensures f (next_token ts) (omega arith))
            (λ s rest (hs, m).
              suffix-Ensures f (selector x s) rest n (omega arith) (omega arith) (lx, hx, hs)
                (omega arith)))
        (λ q.
          let shorter = suffix-next ts (λ e. ground (arith, q, e)) in
          Ensures-and_then (Read 10 (length (next_token ts))) (Read 10 n)
            (parse_index_or_slice f x (next_token ts)) _
            (index-Ensures f x (next_token ts) (omega arith) hx lx)
            (λ y rest (hy, ly, m). suffix-Ensures f y rest n (omega arith) (omega arith) hy ly))
        (λ q. tt) (λ q. (hx, lx, l))

  selector-Ensures :
      (f : ℕ) (ts : Tokens)
      → 7 * length ts + 1 ≤ f
      → Ensures (ReadSelector (length ts)) (parse_selector_node f ts)
  selector-Ensures zero ts h = absurd (omega arith)
  selector-Ensures (suc f) ts h =
      Ensures-select (ReadSelector (length ts)) (select_of (head ts)) _ _ _ _
        (λ q. (tt, select-next ts (λ e. ground (arith, q, e))))
        (λ q. (tt, select-next ts (λ e. ground (arith, q, e))))
        (λ q.
          let shorter = select-next ts (λ e. ground (arith, q, e)) in
          Ensures-and_then (Read 0 (length (next_token ts))) (ReadSelector (length ts))
            (parse_expr f (next_token ts)) _ (expr-Ensures f (next_token ts) (omega arith))
            (λ e rest (he, le, m).
              Ensures-expect (ReadSelector (length ts)) is_r_paren (paren e) rest
                (λ q. (he, omega (arith, length-next_token_le rest)))))
        (λ q. tt)

  index-Ensures :
      (f : ℕ) (x : Expr) (ts : Tokens)
      → 7 * length ts + 7 ≤ f
      → IsParse x
      → 10 ≤ level x
      → Ensures (Read 10 (length ts)) (parse_index_or_slice f x ts)
  index-Ensures zero x ts h hx lx = absurd (omega arith)
  index-Ensures (suc f) x ts h hx lx =
      Ensures-if (Read 10 (length ts)) (is_colon (head ts)) _ _
        (λ q.
          let shorter = length-next_token is_colon ts eof_colon q in
          slice-Ensures f x no_bound (next_token ts) (length ts) (omega arith) (omega arith) hx lx
            tt)
        (λ q.
          Ensures-and_then (Read 0 (length ts)) (Read 10 (length ts)) (parse_expr f ts) _
            (expr-Ensures f ts (omega arith))
            (λ low rest (hl, ll, m).
              Ensures-if (Read 10 (length ts)) (is_colon (head rest)) _ _
                (λ q.
                  slice-Ensures f x (bound low) (next_token rest) (length ts)
                    (omega (arith, length-next_token_le rest))
                    (omega (arith, length-next_token_le rest)) hx lx hl)
                (λ q.
                  Ensures-expect (Read 10 (length ts)) is_r_brack (index x low) rest
                    (λ q. ((lx, hx, hl), omega arith, omega (arith, length-next_token_le rest))))))

  slice-Ensures :
      (f : ℕ) (x : Expr) (low : Bound) (ts : Tokens) (n : ℕ)
      → 7 * length ts + 6 ≤ f
      → length ts < n
      → IsParse x
      → 10 ≤ level x
      → IsBound low
      → Ensures (Read 10 n) (slice_from f x low ts)
  slice-Ensures zero x low ts n h l hx lx hl = absurd (omega arith)
  slice-Ensures (suc f) x low ts n h l hx lx hl =
      Ensures-if (Read 10 n) (may_bound (head ts)) _ _
        (λ q.
          Ensures-and_then (Read 0 (length ts)) (Read 10 n) (parse_expr f ts) _
            (expr-Ensures f ts (omega arith))
            (λ e rest (he, le, m).
              Ensures-expect (Read 10 n) is_r_brack (slice x low (bound e)) rest
                (λ q. ((lx, hx, hl, he), omega arith, omega (arith, length-next_token_le rest)))))
        (λ q.
          Ensures-expect (Read 10 n) is_r_brack (slice x low no_bound) ts
            (λ q. ((lx, hx, hl, tt), omega arith, omega (arith, length-next_token_le ts))))

  operand-Ensures :
      (f : ℕ) (ts : Tokens)
      → 7 * length ts + 1 ≤ f
      → Ensures (Read 10 (length ts)) (parse_operand f ts)
  operand-Ensures zero ts h = absurd (omega arith)
  operand-Ensures (suc f) ts h =
      Ensures-start (Read 10 (length ts)) (start_of (head ts)) _ _ _ _ _
        (λ q. (q, omega arith, start-next ts (λ e. ground (arith, q, e))))
        (λ q. (tt, omega arith, start-next ts (λ e. ground (arith, q, e))))
        (λ q.
          let shorter = start-next ts (λ e. ground (arith, q, e)) in
          let inner = skip_space (next_token ts) in
          Ensures-if (Read 10 (length ts)) (makes_list (next_token ts)) not_covered _ (λ k. tt)
            (λ k.
              Ensures-and_then (Read 0 (length inner)) (Read 10 (length ts)) (parse_expr f inner) _
                (expr-Ensures f inner (omega (arith, length-skip_space (next_token ts))))
                (λ e rest (he, le, m).
                  end_paren-Ensures (length ts) e rest he
                    (omega (arith, length-skip_space (next_token ts))))))
        (λ q. tt) (λ q. tt)

-- On every list of tokens the calls of the modelled functions of the parser end, within the fuel that
-- `parse` gives or any more of it: with a result, or at the first error or the first construct that is
-- not modelled. What the source does behind those is not part of this.
pub parse-ne-out_of_fuel :
    (ts : Tokens) (fuel : ℕ)
    → 7 * length ts + 6 ≤ fuel
    → (parse ts ≢ out_of_fuel) × (parse_expr fuel ts ≢ out_of_fuel)
unfolding parse Ensures
parse-ne-out_of_fuel ts fuel enough = (
  λ e. subst (Ensures (Read 0 (length ts))) e (expr-Ensures (7 * length ts + 6) ts (omega arith)),
  λ e. subst (Ensures (Read 0 (length ts))) e (expr-Ensures fuel ts (omega arith)),
)

-- An expression that the parser returns, from whatever tokens, has left operands that hold together
-- at least as tightly as their operator and right ones that do so more tightly, compares nothing with
-- nil but by the operators for that, and has operands below suffixes and prefixes; and tokens were
-- taken off for it.
pub parse-IsParse :
    (ts : Tokens) (e : Expr) (rest : Tokens)
    → parse ts ≡ parsed e rest
    → IsParse e × (length rest < length ts)
unfolding parse Ensures Read
parse-IsParse ts e rest h =
    let (shape, l, shorter) =
      subst (Ensures (Read 0 (length ts))) h (expr-Ensures (7 * length ts + 6) ts (omega arith)) in
    (shape, shorter)
