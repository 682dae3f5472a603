-- ===== src/Args.antt =====
-- call.go: `Args`, the positional arguments of a call in rows (those of the call, then the spread
-- ones). Go's `nil` where an argument is missing is `none`; indexes are not negative. The outer
-- `none` of an `Option` is a panic.
pub mod Flat
pub mod Walk
pub mod Shift
pub mod Destructure
use gad.Prelude.{
  String, ℕ, zero, suc, ◌+◌, ◌-◌, Bool, true, false, ◌||◌, Option, none, some, List, [], ◌∷◌, ◌++◌,
  ltb, leb, ◌==◌, if◌then◌else◌, length, get_elem?, take, drop,
}
use gad.Prelude.Result.{◌>>=◌}

-- The slice of rows is the end of its backing array, which other slices share: `dropped` has the
-- rows before it.
pub record Args {ℓ} (A : Type ℓ) : Type ℓ where
  pub dropped : List (List A)
  pub rows : List (List A)

module _ {ℓ} {A : Type ℓ} where
  -- The arguments in a fresh slice.
  abbrev pub fresh : List (List A) → Args A
  fresh rows = record { dropped = []; rows = rows }

  unfoldable pub prepend : List A → Args A → Args A
  prepend items o = fresh (items ∷ o.rows)

  array_loop : List A → List (List A) → List A
  array_loop ret [] = ret
  array_loop ret (v ∷ o) = array_loop (ret ++ v) o

  unfoldable pub array : Args A → List A
  unfolding array_loop
  array o = array_loop [] o.rows

  -- `at` counts the arguments of the rows before.
  unfoldable pub get_only_loop : List (List A) → ℕ → ℕ → Option (Option A)
  get_only_loop [] at n = some none
  get_only_loop ([] ∷ o) at n = get_only_loop o at n
  get_only_loop ((x ∷ xs) ∷ o) at n =
      let rest = get_only_loop o (at + length (x ∷ xs)) n in
      if at == n
      then some (some x)
      else if ltb n (at + length (x ∷ xs))
      then (do v ← get_elem? (x ∷ xs) (n - at); some (some v))
      else rest

  unfoldable pub get_only : Args A → ℕ → Option (Option A)
  get_only o n = get_only_loop o.rows 0 n

  unfoldable pub get_default : Args A → ℕ → Option A → Option (Option A)
  get_default o n d = do v ← get_only o n; some (elim v [ some x ↦ some x | none ↦ d ])

  -- `Get` panics where there is no argument.
  unfoldable pub get : Args A → ℕ → Option A
  get o n = do v ← get_default o n none; v

  -- `i` counts the rows before.
  unfoldable pub get_ij_loop : List (List A) → ℕ → ℕ → ℕ → ℕ × ℕ × Bool
  get_ij_loop [] i at n = (0, 0, false)
  get_ij_loop ([] ∷ o) i at n = get_ij_loop o (i + 1) at n
  get_ij_loop ((x ∷ xs) ∷ o) i at n =
      let rest = get_ij_loop o (i + 1) (at + length (x ∷ xs)) n in
      if at == n
      then (i, 0, true)
      else if ltb n (at + length (x ∷ xs))
      then (i, n - at, true)
      else rest

  unfoldable pub get_ij : Args A → ℕ → ℕ × ℕ × Bool
  get_ij o n = get_ij_loop o.rows 0 0 n

  length_loop : List (List A) → ℕ → ℕ
  length_loop [] l = l
  length_loop (v ∷ o) l = length_loop o (l + length v)

  unfoldable pub arg_count : Args A → ℕ
  unfolding length_loop
  arg_count o = length_loop o.rows 0

  -- The call back stops the walk with a result.
  unfoldable pub walk_row : {R : Type 0} → (ℕ → A → Option R) → ℕ → List A → ℕ → Option R × ℕ
  walk_row cb skip [] i = (none, i)
  walk_row cb skip (arg ∷ arr) i =
      let rest = walk_row cb skip arr (i + 1) in
      if ltb i skip then rest else elim (cb i arg) [ some v ↦ (some v, i) | none ↦ rest ]

  unfoldable pub walk_rows : {R : Type 0} → (ℕ → A → Option R) → ℕ → List (List A) → ℕ → Option R
  walk_rows cb skip [] i = none
  walk_rows cb skip (arr ∷ o) i =
      let r = walk_row cb skip arr i in
      let rest = walk_rows cb skip o r.1 in elim r.0 [ some v ↦ some v | none ↦ rest ]

  unfoldable pub walk_skip : {R : Type 0} → ℕ → (ℕ → A → Option R) → Args A → Option R
  walk_skip skip cb o = walk_rows cb skip o.rows 0

  -- `l` rounds of the loop, from index `i`.
  values_loop : ℕ → ℕ → Args A → Option (List A)
  values_loop zero i o = some []
  values_loop (suc l) i o = do v ← get o i; vs ← values_loop l (i + 1) o; some (v ∷ vs)

  unfoldable pub values : Args A → Option (List A)
  unfolding values_loop
  values o = elim o.rows [
    | [] ↦ some []
    | v ∷ [] ↦ some v
    | v ∷ w ∷ rest ↦ values_loop (arg_count o) 0 o
  ]
