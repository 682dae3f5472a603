-- ===== src/SourceFile/Positions.antt =====
-- Lines and columns: what `Unpack` and `Position` say of an offset, and the way back.
use mathlib.Core.Option
use gad.Prelude.{
  String, ℕ, zero, suc, ◌+◌, ◌-◌, ◌<◌, ◌≤◌, ◌≡◌, ◌≢◌, sym, ap, ◌∙◌, inl, inr, Bool, true, false,
  not, Option-cases, Option, some, List, leb, length, get_elem?, get_elem?-some, get_elem?-lt,
  arith,
}
use gad.Prelude.Int.{ℤ, pos, sub_ℕ}
use gad.Prelude.Result.{◌>>=◌}
use gad.SourceFile.Search.{search_ints}
use gad.SourceFile.Search.Laws.{search_ints-eq, sort_search_least}
use gad.SourceFile.File.{SourceFile, no_pos, unpack, safe_position, position, line_start}
use gad.SourceFile.Lines.{IsSorted, IsSorted-get}

abbrev after : List ℕ → ℕ → ℕ → Option Bool
after a o i = do v ← get_elem? a i; some (not (leb v o))

module _ (a : List ℕ) (o : ℕ) where
  after-total : (i : ℕ) → i < length a → (t : Bool) × (after a o i ≡ some t)
  after-total i h = let (v, e) = get_elem?-some a i h in (not (leb v o), ground (arith, e))

  after_mono :
      IsSorted a
      → (i k : ℕ) → i ≤ k
      → k < length a
      → after a o i ≡ some true
      → after a o k ≡ some true
  after_mono s i k le b e =
      let (v, p) = get_elem?-some a i (omega arith) in
      let (w, q) = get_elem?-some a k b in ground (arith, e, p, q, IsSorted-get a i k v w s)

  after-false : (i : ℕ) → after a o i ≡ some false → (v : ℕ) × (get_elem? a i ≡ some v) × (v ≤ o)
  after-false i e = elim (Option-cases (get_elem? a i)) [
    | inl n ↦ absurd (ground (arith, e, n))
    | inr (v, p) ↦ (v, p, ground (arith, e, p))
  ]

  after-true : (i v : ℕ) → after a o i ≡ some true → get_elem? a i ≡ some v → o < v
  after-true i v e p = ground (arith, e, p)

-- The line of an offset: the last one that starts at it or before.
abbrev pub LineAt : List ℕ → ℕ → ℕ → ℕ → Type 0
LineAt a o k start =
    (get_elem? a k ≡ some start)
    × (start ≤ o)
    × ((next : ℕ) → get_elem? a (suc k) ≡ some next → o < next)

module _ (a : List ℕ) (o : ℕ) (z : get_elem? a 0 ≡ some 0) where
  LineAt-split :
      (r : ℕ)
      → r ≤ length a
      → ((k : ℕ) → k < r → after a o k ≡ some false)
      → ((k : ℕ) → r ≤ k → k < length a → after a o k ≡ some true)
      → (k : ℕ) × (start : ℕ) × ((sub_ℕ r 1 ≡ pos k) × LineAt a o k start)
  LineAt-split zero b lo hi =
      absurd (omega (arith, after-true a o 0 0 (hi 0 (omega arith) (get_elem?-lt a 0 0 z)) z))
  LineAt-split (suc k) b lo hi =
      let (v, p, le) = after-false a o k (lo k (omega arith)) in
      (
        k,
        v,
        (
          ground arith,
          (
            p,
            le,
            λ next q.
                after-true a o (suc k) next
                  (hi (suc k) (omega arith) (get_elem?-lt a (suc k) next q)) q,
          ),
        ),
      )

  search_ints-LineAt :
      IsSorted a
      → (k : ℕ) × (start : ℕ) × ((search_ints a (pos o) ≡ some (pos k)) × LineAt a o k start)
  search_ints-LineAt s =
      let (r, e, b, lo, hi) =
        sort_search_least (length a) (after a o) (after-total a o) (after_mono a o s) in
      let (k, start, q) = LineAt-split r b lo hi in
      (k, start, (search_ints-eq a (pos o) ∙ ap (Option.map (λ i. sub_ℕ i 1)) e ∙ ap some q.0, q.1))

-- On a sorted table that starts with 0, `Unpack` of an offset does not panic: it gives the file's
-- name, the number of the last line that starts at the offset or before it (from 1), and the
-- distance from that start (from 1); and the next line, if there is one, starts after the offset.
pub unpack-LineAt :
    (f : SourceFile) (o : ℕ)
    → IsSorted f.lines
    → get_elem? f.lines 0 ≡ some 0
    → (k : ℕ) × (start : ℕ) × ((unpack f (pos o) ≡ some (f.name, pos (k + 1), pos (o + 1 - start)))
        × (get_elem? f.lines k ≡ some start)
        × (start ≤ o)
        × ((next : ℕ) → get_elem? f.lines (suc k) ≡ some next → o < next))
unfolding unpack
unpack-LineAt f o s z =
    let (k, start, q) = search_ints-LineAt f.lines o z s in
    (k, start, (ground (arith, q.0, q.1), q.1.0, q.1.1, q.1.2))

line_start-get :
    (f : SourceFile) (k start : ℕ)
    → get_elem? f.lines k ≡ some start
    → line_start f (k + 1) ≡ some (f.base + start)
unfolding line_start
line_start-get f k start e =
    let back : k + 1 - 1 ≡ k = omega arith in
    ground (arith, e, get_elem?-lt f.lines k start e, back, ap (get_elem? f.lines) back)

-- The first position of a line, backwards.
get-line_start :
    (f : SourceFile) (k next : ℕ)
    → line_start f (k + 2) ≡ some next
    → (v : ℕ) × (get_elem? f.lines (suc k) ≡ some v) × (next ≡ f.base + v)
unfolding line_start
get-line_start f k next e =
    let back : k + 2 - 1 ≡ suc k = omega arith in
    elim (Option-cases (get_elem? f.lines (suc k))) [
      | inl n ↦ absurd (ground (arith, e, n, back, ap (get_elem? f.lines) back))
      | inr (v, p) ↦ (v, p, ground (arith, e, p, back, ap (get_elem? f.lines) back))
    ]

position-unpack :
    (f : SourceFile) (p : ℕ) (u : String × ℤ × ℤ)
    → p ≢ no_pos
    → f.base ≤ p
    → p ≤ f.base + f.size
    → unpack f (pos (p - f.base)) ≡ some u
    → position f p
      ≡ some (record { filename = u.0; offset = pos (p - f.base); line = u.1; column = u.2 })
unfolding position safe_position
position-unpack f p u n lo hi e =
    let off : sub_ℕ p f.base ≡ pos (p - f.base) = ground (arith, lo) in
    ground (arith, n, lo, hi, off, e)

-- For a position of the file and a sorted line table that starts with 0, `Position` does not panic,
-- and `LineStart` of the line that it gives, plus the column, less one, is the position again. The
-- column is at least 1, and the start of the next line, where `LineStart` has one, lies above.
pub position-line_start :
    (f : SourceFile) (p : ℕ)
    → IsSorted f.lines
    → get_elem? f.lines 0 ≡ some 0
    → p ≢ no_pos
    → f.base ≤ p
    → p ≤ f.base + f.size
    → (line : ℕ) × (column : ℕ) × (start : ℕ) × ((position f p
          ≡ some (record {
            filename = f.name;
            offset = pos (p - f.base);
            line = pos line;
            column = pos column;
          }))
        × (line_start f line ≡ some start)
        × (start + column ≡ p + 1)
        × (1 ≤ column)
        × ((next : ℕ) → line_start f (line + 1) ≡ some next → p < next))
position-line_start f p s z n lo hi =
    let (k, start, (e, g, b, above)) = unpack-LineAt f (p - f.base) s z in
    (
      k + 1,
      p - f.base + 1 - start,
      f.base + start,
      (
        position-unpack f p (f.name, pos (k + 1), pos (p - f.base + 1 - start)) n lo hi e,
        line_start-get f k start g,
        omega arith,
        omega arith,
        λ next q.
            let two : k + 1 + 1 ≡ k + 2 = omega arith in
            let (v, r, is) = get-line_start f k next (ap (line_start f) (sym two) ∙ q) in
            omega (arith, is, above v r),
      ),
    )
