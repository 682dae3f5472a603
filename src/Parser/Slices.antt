-- ===== src/Parser/Slices.antt =====
-- What the parser does with printed slices.
use gad.Prelude.{◌+◌, ◌≤◌, ◌≡◌, refl, [], ◌∷◌, ◌++◌, arith}
use gad.Token.{Token}
use gad.Parser.{Expr, Bound, Tokens, slice, no_bound, bound}
use gad.Parser.Tokens.{head, is_lambda}
use gad.Parser.Expressions.{parsed, primary_loop, parse_index_or_slice, slice_from}
use gad.Parser.Printer.{mark, print, print_bound, level, IsParse, IsBound}
use gad.Parser.Steps.{From, weaken}
use gad.Parser.Suffixes.{
  slice_from-none, slice_from-bound, slice-step_none, slice-step_bound, brack-step,
}
use gad.Parser.Starts.{can_start-StartFacts, print-can_start}
use gad.Parser.Operands.{regroup, before, behind, brack-Closed, colon-Closed}
use gad.Parser.Claims.{cost, cost_bound, Primary, Reads}

-- The part of a slice from its first colon, and the whole of it.
bound-slice_from :
    (x : Expr) (low high : Bound) (ts : Tokens)
    → IsBound high
    → ((e : Expr) → high ≡ bound e → Reads e)
    → From
        (cost_bound high + 6)
        (λ g. slice_from g x low (print_bound high ++ mark Token.r_brack ∷ ts))
        (parsed (slice x low high) ts)
unfolding print cost IsParse
bound-slice_from x low no_bound ts h reads = weaken (slice_from-none x low ts) (omega arith)
bound-slice_from x low (bound e) ts h reads =
    let inside = print e ++ mark Token.r_brack ∷ ts in
    let facts =
      can_start-StartFacts (head inside) (print-can_start e h (mark Token.r_brack ∷ ts)) in
    weaken
      (slice_from-bound (cost e + 5) inside e ts x low facts.1
        (before e Token.r_brack ts (reads e refl) brack-Closed))
      (omega arith)

bound-slice :
    (x : Expr) (low high : Bound) (ts : Tokens)
    → IsBound low
    → IsBound high
    → ((e : Expr) → low ≡ bound e → Reads e)
    → ((e : Expr) → high ≡ bound e → Reads e)
    → From
        (cost_bound low + cost_bound high + 12)
        (λ g.
          parse_index_or_slice g x
            (print_bound low ++ mark Token.colon ∷ (print_bound high ++ mark Token.r_brack ∷ ts)))
        (parsed (slice x low high) ts)
unfolding print cost IsParse
bound-slice x no_bound high ts h k reads readh =
    let behind_colon = print_bound high ++ mark Token.r_brack ∷ ts in
    weaken
      (slice-step_none (cost_bound high + 6) behind_colon x ts (parsed (slice x no_bound high) ts)
        (bound-slice_from x no_bound high ts k readh))
      (omega arith)
bound-slice x (bound e) high ts h k reads readh =
    let behind_colon = print_bound high ++ mark Token.r_brack ∷ ts in
    let inside = print e ++ mark Token.colon ∷ behind_colon in
    let facts =
      can_start-StartFacts (head inside) (print-can_start e h (mark Token.colon ∷ behind_colon)) in
    weaken
      (slice-step_bound (cost e + cost_bound high + 6) inside x behind_colon
        (parsed (slice x (bound e) high) ts) e facts.0
        (weaken (before e Token.colon behind_colon (reads e refl) colon-Closed) (omega arith))
        (weaken (bound-slice_from x (bound e) high ts k readh) (omega arith)))
      (omega arith)

pub slice-Primary :
    (x : Expr) (low high : Bound)
    → 10 ≤ level x
    → Reads x
    → IsBound low
    → IsBound high
    → ((e : Expr) → low ≡ bound e → Reads e)
    → ((e : Expr) → high ≡ bound e → Reads e)
    → Primary (slice x low high)
unfolding print cost is_lambda
slice-Primary x low high l reads h k readl readh n ts r q m =
    let N = n + cost_bound low + cost_bound high + 13 in
    weaken
      (behind x N Token.l_brack
        (print_bound low ++ mark Token.colon ∷ (print_bound high ++ mark Token.r_brack ∷ [])) ts r l
        reads refl
        (regroup (λ g u. primary_loop g x (mark Token.l_brack ∷ u)) N (print_bound low)
          (mark Token.colon) (print_bound high ++ mark Token.r_brack ∷ []) ts
          (regroup
            (λ g u.
              primary_loop g x (mark Token.l_brack ∷ (print_bound low ++ mark Token.colon ∷ u)))
            N (print_bound high) (mark Token.r_brack) [] ts
            (weaken
              (brack-step (n + cost_bound low + cost_bound high + 12) _ x ts r (slice x low high)
                (weaken (bound-slice x low high ts h k readl readh) (omega arith))
                (weaken m (omega arith)))
              (omega arith)))))
      (omega arith)
