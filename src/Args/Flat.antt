-- ===== src/Args/Flat.antt =====
-- `Args` seen as one list: counting, indexing, collecting and walking the rows.
use mathlib.Core.Path.{subst}
use native.Mathlib.Decide.{dec_lt, ℕ_discrete}
use gad.Prelude.{
  ℕ, zero, suc, ◌+◌, ◌-◌, ◌<◌, ◌≤◌, ◌≡◌, refl, sym, ap, ◌∙◌, inl, inr, Bool, true, false,
  Option-cases, some, List, [], ◌∷◌, ◌++◌, append-nil, append_assoc, length, length-append,
  get_elem?, get_elem?-some, get_elem?-append_left, get_elem?-append_right, drop, arith,
}
use gad.Args.{
  Args, array, array_loop, get_only, get_only_loop, get_ij, get_ij_loop, arg_count, length_loop,
  values, values_loop, get, get_default,
}

module _ {ℓ} {A : Type ℓ} where
  abbrev pub flatten : List (List A) → List A
  flatten [] = []
  flatten (v ∷ o) = v ++ flatten o

  array_loop-eq : (ret : List A) (o : List (List A)) → array_loop ret o ≡ ret ++ flatten o
  unfolding array_loop
  array_loop-eq ret [] = sym (append-nil ret)
  array_loop-eq ret (v ∷ o) = array_loop-eq (ret ++ v) o ∙ append_assoc ret v (flatten o)

  length_loop-eq : (o : List (List A)) (l : ℕ) → length_loop o l ≡ l + length (flatten o)
  unfolding length_loop
  length_loop-eq [] l = omega arith
  length_loop-eq (v ∷ o) l =
      omega (arith, length_loop-eq o (l + length v), length-append v (flatten o))

  pub arg_count-eq : (o : Args A) → arg_count o ≡ length (flatten o.rows)
  unfolding arg_count
  arg_count-eq o = omega (arith, length_loop-eq o.rows 0)

  get_elem?-skip :
      (xs ys : List A) (n : ℕ)
      → length xs ≤ n
      → get_elem? (xs ++ ys) n ≡ get_elem? ys (n - length xs)
  get_elem?-skip xs ys n h =
      let split : n ≡ length xs + (n - length xs) = omega arith in
      ap (get_elem? (xs ++ ys)) split ∙ get_elem?-append_right xs ys (n - length xs)

  get_only_loop-eq :
      (o : List (List A)) (at n : ℕ)
      → at ≤ n
      → get_only_loop o at n ≡ some (get_elem? (flatten o) (n - at))
  unfolding get_only_loop
  get_only_loop-eq [] at n h = refl
  get_only_loop-eq ([] ∷ o) at n h = get_only_loop-eq o at n h
  get_only_loop-eq ((x ∷ xs) ∷ o) at n h = elim (ℕ_discrete at n) [
    | yes e ↦
        let zero_at : n - at ≡ 0 = omega arith in
        ground (arith, e, ap (get_elem? (x ∷ (xs ++ flatten o))) zero_at)
    | no ne ↦ elim (dec_lt n (at + length (x ∷ xs))) [
      | yes lt ↦
          let (v, q) = get_elem?-some (x ∷ xs) (n - at) (omega arith) in
          ground
            (arith, ne, lt, q, get_elem?-append_left (x ∷ xs) (flatten o) (n - at) (omega arith))
      | no ge ↦
          let rest : n - (at + length (x ∷ xs)) ≡ n - at - length (x ∷ xs) = omega arith in
          ground (
            arith,
            ne,
            ge,
            get_only_loop-eq o (at + length (x ∷ xs)) n (omega arith),
            ap (get_elem? (flatten o)) rest,
            get_elem?-skip (x ∷ xs) (flatten o) (n - at) (omega arith),
          )
    ]
  ]

  pub get_only-eq : (o : Args A) (n : ℕ) → get_only o n ≡ some (get_elem? (flatten o.rows) n)
  unfolding get_only
  get_only-eq o n =
      get_only_loop-eq o.rows 0 n (omega arith)
      ∙ ap (λ i. some (get_elem? (flatten o.rows) i)) (omega arith)

  pub get-eq : (o : Args A) (n : ℕ) → get o n ≡ get_elem? (flatten o.rows) n
  unfolding get get_default
  get-eq o n = elim (Option-cases (get_elem? (flatten o.rows) n)) [
    | inl e ↦ ground (arith, e, get_only-eq o n)
    | inr (v, e) ↦ ground (arith, e, get_only-eq o n)
  ]

  pub drop-get :
      (xs : List A) (i : ℕ) (v : A) → get_elem? xs i ≡ some v → drop i xs ≡ v ∷ drop (suc i) xs
  drop-get [] i v e = absurd (ground (arith, e))
  drop-get (x ∷ xs) zero v e = ap (λ t. t ∷ xs) (ground (arith, e))
  drop-get (x ∷ xs) (suc i) v e = drop-get xs i v e

  drop-all : (xs : List A) (i : ℕ) → length xs ≤ i → drop i xs ≡ []
  drop-all [] zero h = refl
  drop-all [] (suc i) h = refl
  drop-all (x ∷ xs) zero h = absurd (omega arith)
  drop-all (x ∷ xs) (suc i) h = drop-all xs i (omega arith)

  values_loop-eq :
      (l i : ℕ) (o : Args A)
      → l + i ≡ length (flatten o.rows)
      → values_loop l i o ≡ some (drop i (flatten o.rows))
  unfolding values_loop
  values_loop-eq zero i o h = ap some (sym (drop-all (flatten o.rows) i (omega arith)))
  values_loop-eq (suc l) i o h =
      let (v, e) = get_elem?-some (flatten o.rows) i (omega arith) in
      let next : i + 1 ≡ suc i = omega arith in
      let rest = values_loop-eq l (i + 1) o (omega arith) in
      ground (
        arith,
        get-eq o i,
        e,
        rest,
        drop-get (flatten o.rows) i v e,
        ap (λ j. drop j (flatten o.rows)) next,
      )

  values-rows :
      (d rows : List (List A)) → values (record { dropped = d; rows = rows }) ≡ some (flatten rows)
  unfolding values
  values-rows d [] = refl
  values-rows d (v ∷ []) = ap some (sym (append-nil v))
  values-rows d (v ∷ w ∷ rest) =
      let o : Args A = record { dropped = d; rows = v ∷ w ∷ rest } in
      values_loop-eq (arg_count o) 0 o (omega (arith, arg_count-eq o))

  pub values-eq : (o : Args A) → values o ≡ some (flatten o.rows)
  values-eq o = values-rows o.dropped o.rows

  pub array-eq : (o : Args A) → array o ≡ flatten o.rows
  unfolding array
  array-eq o = array_loop-eq [] o.rows

  -- The rows are one list: `Array`, and `Values` without a panic, return it; `Length` is its length;
  -- and for every index `GetOnly` does not panic and returns the argument there, if there is one,
  -- and `Get` panics only where there is none.
  pub flatten_view :
      (o : Args A)
      → (array o ≡ flatten o.rows)
        × (values o ≡ some (flatten o.rows))
        × (arg_count o ≡ length (flatten o.rows))
        × ((n : ℕ)
            → (get_only o n ≡ some (get_elem? (flatten o.rows) n))
              × (get o n ≡ get_elem? (flatten o.rows) n))
  flatten_view o = (array-eq o, values-eq o, arg_count-eq o, λ n. (get_only-eq o n, get-eq o n))

  -- `GetIJ` from row `i`, after `at` arguments: the row and the place in it, counted from `i`.
  abbrev Located : List (List A) → ℕ → ℕ → ℕ × ℕ × Bool → Type ℓ
  Located o i k r =
      (k < length (flatten o)
        → (r.2 ≡ true)
          × (row : List A) × (d : ℕ) × ((r.0 ≡ i + d)
              × (get_elem? o d ≡ some row)
              × (get_elem? row r.1 ≡ get_elem? (flatten o) k)))
      × (length (flatten o) ≤ k → r.2 ≡ false)

  Located-empty :
      (o : List (List A)) (i k : ℕ) (r : ℕ × ℕ × Bool)
      → Located o (i + 1) k r
      → Located ([] ∷ o) i k r
  Located-empty o i k r h =
      (λ b. let (t, row, d, (e, g, q)) = h.0 b in (t, row, suc d, (omega arith, g, q)), h.1)

  Located-here :
      (x : A) (xs : List A) (o : List (List A)) (i k j : ℕ)
      → j ≡ k
      → k < length (x ∷ xs)
      → Located ((x ∷ xs) ∷ o) i k (i, j, true)
  Located-here x xs o i k j e h = (
    λ b. (
      refl,
      x ∷ xs,
      0,
      (
        omega arith,
        refl,
        ap (get_elem? (x ∷ xs)) e ∙ sym (get_elem?-append_left (x ∷ xs) (flatten o) k h),
      ),
    ),
    λ b. absurd (omega (arith, b, h, length-append (x ∷ xs) (flatten o))),
  )

  Located-later :
      (v : List A) (o : List (List A)) (i k : ℕ) (r : ℕ × ℕ × Bool)
      → length v ≤ k
      → Located o (i + 1) (k - length v) r
      → Located (v ∷ o) i k r
  Located-later v o i k r h l = (
    λ b.
        let (t, row, d, (e, g, q)) = l.0 (omega (arith, b, length-append v (flatten o))) in
        (t, row, suc d, (omega arith, g, q ∙ sym (get_elem?-skip v (flatten o) k h))),
    λ b. l.1 (omega (arith, b, length-append v (flatten o))),
  )

  get_ij_loop-Located :
      (o : List (List A)) (i at n : ℕ) → at ≤ n → Located o i (n - at) (get_ij_loop o i at n)
  unfolding get_ij_loop
  get_ij_loop-Located [] i at n h = (λ b. absurd (omega arith), λ b. refl)
  get_ij_loop-Located ([] ∷ o) i at n h =
      Located-empty o i (n - at) _ (get_ij_loop-Located o (i + 1) at n h)
  get_ij_loop-Located ((x ∷ xs) ∷ o) i at n h = elim (ℕ_discrete at n) [
    | yes e ↦
        let is : get_ij_loop ((x ∷ xs) ∷ o) i at n ≡ (i, 0, true) = ground (arith, e) in
        subst (Located ((x ∷ xs) ∷ o) i (n - at)) (sym is)
          (Located-here x xs o i (n - at) 0 (omega arith) (omega arith))
    | no ne ↦ elim (dec_lt n (at + length (x ∷ xs))) [
      | yes lt ↦
          let is : get_ij_loop ((x ∷ xs) ∷ o) i at n ≡ (i, n - at, true) = ground (arith, ne, lt) in
          subst (Located ((x ∷ xs) ∷ o) i (n - at)) (sym is)
            (Located-here x xs o i (n - at) (n - at) refl (omega arith))
      | no ge ↦
          let rest = get_ij_loop o (i + 1) (at + length (x ∷ xs)) n in
          let is : get_ij_loop ((x ∷ xs) ∷ o) i at n ≡ rest = ground (arith, ne, ge) in
          let k : n - (at + length (x ∷ xs)) ≡ n - at - length (x ∷ xs) = omega arith in
          subst (Located ((x ∷ xs) ∷ o) i (n - at)) (sym is) (
            Located-later (x ∷ xs) o i (n - at) rest (omega arith) (
              subst (λ m. Located o (i + 1) m rest) k
                (get_ij_loop-Located o (i + 1) (at + length (x ∷ xs)) n (omega arith))))
    ]
  ]

  -- `GetIJ` finds an argument exactly when there are more than `n`; then the place in the row that
  -- it gives has the argument that stands at `n` in all of them.
  pub get_ij-flatten :
      (o : Args A) (n : ℕ)
      → (n < length (flatten o.rows)
          → (get_ij o n).2 ≡ true
            × (row : List A) × ((get_elem? o.rows (get_ij o n).0 ≡ some row)
                × (get_elem? row (get_ij o n).1 ≡ get_elem? (flatten o.rows) n)))
        × (length (flatten o.rows) ≤ n → (get_ij o n).2 ≡ false)
  unfolding get_ij
  get_ij-flatten o n =
      let all : n - 0 ≡ n = omega arith in
      let l =
        subst (λ k. Located o.rows 0 k (get_ij_loop o.rows 0 0 n)) all
          (get_ij_loop-Located o.rows 0 0 n (omega arith)) in
      (
        λ b.
            let (t, row, d, (e, g, q)) = l.0 b in
            let place : (get_ij_loop o.rows 0 0 n).0 ≡ d = omega (arith, e) in
            (t, row, (ap (get_elem? o.rows) place ∙ g, q)),
        l.1,
      )
