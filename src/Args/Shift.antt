-- ===== src/Args/Shift.antt =====
-- `ShiftOk` and `Shift`: the first argument is taken off. `none` for the argument is the source's
-- `Nil` with `false`.
use gad.Prelude.{
  ℕ, zero, suc, ◌+◌, ◌≡◌, refl, ap, ◌∙◌, Option, none, some, List, [], ◌∷◌, ◌++◌, append_assoc,
  if◌then◌else◌, length, get_elem?, take, drop, drop-length, arith,
}
use gad.Prelude.Result.{◌>>=◌}
use gad.Args.{Args, get_ij, get_ij_loop}
use gad.Args.Flat.{flatten}

module _ {ℓ} {A : Type ℓ} where
  -- The loop over empty rows at the front, each of which the slice leaves behind.
  unfoldable pub skip_empty : List (List A) → List (List A) → Args A
  skip_empty dropped [] = record { dropped = dropped; rows = [] }
  skip_empty dropped ([] ∷ rest) = skip_empty (dropped ++ [] ∷ []) rest
  skip_empty dropped ((x ∷ xs) ∷ rest) = record { dropped = dropped; rows = (x ∷ xs) ∷ rest }

  -- (*o)[i] = row, a panic where there is no such row.
  unfoldable pub set_row : List (List A) → ℕ → List A → Option (List (List A))
  set_row [] i row = none
  set_row (r ∷ rows) zero row = some (row ∷ rows)
  set_row (r ∷ rows) (suc i) row = do rest ← set_row rows i row; some (r ∷ rest)

  unfoldable pub take_at : Args A → ℕ → ℕ → Option (Option A × Args A)
  take_at o i j = do
    row ← get_elem? o.rows i
    v ← get_elem? row j
    elim (drop (j + 1) row) [
      | [] ↦ some (
        some v,
        record { dropped = o.dropped ++ take (i + 1) o.rows; rows = drop (i + 1) o.rows },
      )
      | y ∷ ys ↦ do
        rows ← set_row o.rows i (y ∷ ys)
        some (some v, record { dropped = o.dropped; rows = rows })
    ]

  unfoldable pub shift_ok : Args A → Option (Option A × Args A)
  shift_ok o =
      let o' = skip_empty o.dropped o.rows in
      elim o'.rows [
        | [] ↦ some (none, o')
        | r ∷ rs ↦ let ij = get_ij o' 0 in if ij.2 then take_at o' ij.0 ij.1 else some (none, o')
      ]

  -- `Shift` drops the Boolean; the nil of the language stands for a missing argument.
  unfoldable pub shift : A → Args A → Option (A × Args A)
  shift nil o = do r ← shift_ok o; some (elim r.0 [ some v ↦ v | none ↦ nil ], r.1)

  -- The rows that a slice of the same array, which starts at row `k` of it, has.
  abbrev pub seen_from : ℕ → Args A → List (List A)
  seen_from k o = drop k (o.dropped ++ o.rows)

  -- A shift of the first argument of the first row.
  front :
      (d : List (List A)) (x : A) (xs : List A) (rest : List (List A))
      → shift_ok (record { dropped = d; rows = (x ∷ xs) ∷ rest })
        ≡ some (
          some x,
          (elim xs [
            | [] ↦ record { dropped = d ++ (x ∷ []) ∷ []; rows = rest }
            | y ∷ ys ↦ record { dropped = d; rows = (y ∷ ys) ∷ rest }
          ]),
        )
  unfolding shift_ok skip_empty take_at set_row get_ij get_ij_loop
  front d x [] rest = refl
  front d x (y ∷ ys) rest = refl

  abbrev Shifts : Option A → List A → Args A → Type ℓ
  Shifts v vs o = (o' : Args A) × ((shift_ok o ≡ some (v, o')) × (flatten o'.rows ≡ vs))

  over_empty :
      (d rest : List (List A))
      → shift_ok (record { dropped = d; rows = [] ∷ rest })
        ≡ shift_ok (record { dropped = d ++ [] ∷ []; rows = rest })
  unfolding shift_ok skip_empty
  over_empty d rest = refl

  shift_none :
      (d rows : List (List A))
      → flatten rows ≡ []
      → Shifts none [] (record { dropped = d; rows = rows })
  shift_none d [] e =
      (record { dropped = d; rows = [] }, (unfold shift_ok skip_empty in refl, refl))
  shift_none d ([] ∷ rest) e =
      let (o', q) = shift_none (d ++ [] ∷ []) rest e in (o', (over_empty d rest ∙ q.0, q.1))
  shift_none d ((x ∷ xs) ∷ rest) e = absurd (ground (arith, e))

  shift_some :
      (d rows : List (List A)) (v : A) (vs : List A)
      → flatten rows ≡ v ∷ vs
      → Shifts (some v) vs (record { dropped = d; rows = rows })
  shift_some d [] v vs e = absurd (ground (arith, e))
  shift_some d ([] ∷ rest) v vs e =
      let (o', q) = shift_some (d ++ [] ∷ []) rest v vs e in (o', (over_empty d rest ∙ q.0, q.1))
  shift_some d ((x ∷ []) ∷ rest) v vs e =
      let o' : Args A = record { dropped = d ++ (x ∷ []) ∷ []; rows = rest } in
      let same : x ≡ v = ground (arith, e) in
      (o', (front d x [] rest ∙ ap (λ t. some (some t, o')) same, ground (arith, e)))
  shift_some d ((x ∷ y ∷ ys) ∷ rest) v vs e =
      let o' : Args A = record { dropped = d; rows = (y ∷ ys) ∷ rest } in
      let same : x ≡ v = ground (arith, e) in
      (o', (front d x (y ∷ ys) rest ∙ ap (λ t. some (some t, o')) same, ground (arith, e)))

  -- `ShiftOk` never panics: where there is no argument it says so and leaves none; else it returns
  -- the first of the arguments and leaves the others, in order.
  pub shift_ok-flatten :
      (o : Args A)
      → (flatten o.rows ≡ []
          → (o' : Args A) × ((shift_ok o ≡ some (none, o')) × (flatten o'.rows ≡ [])))
        × ((v : A) (vs : List A)
            → flatten o.rows ≡ v ∷ vs
            → (o' : Args A) × ((shift_ok o ≡ some (some v, o')) × (flatten o'.rows ≡ vs)))
  shift_ok-flatten o = (shift_none o.dropped o.rows, shift_some o.dropped o.rows)

  -- `ShiftOk` on a slice that starts with a row of arguments, seen by a slice of the same array that
  -- starts there too, a copy of the value: when the row has one argument only, the copy still has
  -- it; when it has others, the copy has lost the argument.
  pub shift_ok-shared :
      (d : List (List A)) (x : A) (xs : List A) (rest : List (List A))
      → (o' : Args A) × ((shift_ok (record { dropped = d; rows = (x ∷ xs) ∷ rest })
            ≡ some (some x, o'))
          × (xs ≡ [] → seen_from (length d) o' ≡ (x ∷ xs) ∷ rest)
          × ((y : A) (ys : List A) → xs ≡ y ∷ ys → seen_from (length d) o' ≡ xs ∷ rest))
  shift_ok-shared d x [] rest = (
    _,
    (
      front d x [] rest,
      λ e.
          ap (drop (length d)) (append_assoc d ((x ∷ []) ∷ []) rest)
          ∙ drop-length d ((x ∷ []) ∷ rest),
      λ y ys e. absurd (ground (arith, e)),
    ),
  )
  shift_ok-shared d x (y ∷ ys) rest = (
    _,
    (
      front d x (y ∷ ys) rest,
      λ e. absurd (ground (arith, e)),
      λ z zs e. drop-length d ((y ∷ ys) ∷ rest),
    ),
  )
