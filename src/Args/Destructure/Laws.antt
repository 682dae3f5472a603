-- ===== src/Args/Destructure/Laws.antt =====
-- What the destinations get.
use text.Mathlib.Text.{◌==◌ as str_eq}
use gad.Prelude.{
  ℕ, suc, ◌+◌, ◌<◌, ◌≤◌, ◌≡◌, ◌≢◌, refl, sym, ap, Bool, true, false, none, some, List, [], ◌∷◌,
  ◌++◌, append-nil, if◌then◌else◌, length, length-append, arith,
}
use gad.Args.{Args, arg_count}
use gad.Args.Flat.{flatten, arg_count-eq, values-eq}
use gad.Args.Shift.{shift, shift_ok-flatten}
use gad.Args.Destructure.{
  Arg, argument_type, wrong_num_arguments, check_len, check_min_len, assign, destructure,
  destructure_var,
}

module _ {ℓ} {A : Type ℓ} where
  -- Each destination accepts its value, and there are as many.
  abbrev pub Accepts : List (Arg A) → List A → Type 0
  Accepts [] [] = Unit
  Accepts (d ∷ dst) (v ∷ vs) = (str_eq (d.accept v) "" ≡ true) × Accepts dst vs
  Accepts _ _ = ⊥

  length-Accepts : (dst : List (Arg A)) (vs : List A) → Accepts dst vs → length dst ≡ length vs
  length-Accepts [] [] h = refl
  length-Accepts (d ∷ dst) (v ∷ vs) h = ap suc (length-Accepts dst vs h.1)
  length-Accepts [] (v ∷ vs) h = absurd h
  length-Accepts (d ∷ dst) [] h = absurd h

  shift-some :
      (nil : A) (o : Args A) (v : A) (vs : List A)
      → flatten o.rows ≡ v ∷ vs
      → (o' : Args A) × ((shift nil o ≡ some (v, o')) × (flatten o'.rows ≡ vs))
  unfolding shift
  shift-some nil o v vs e =
      let (o', q) = (shift_ok-flatten o).1 v vs e in (o', (ground (arith, q.0), q.1))

  assign-Accepts :
      (nil : A) (named : Bool) (i : ℕ) (dst : List (Arg A)) (vs ws : List A) (o : Args A)
      → Accepts dst vs
      → flatten o.rows ≡ vs ++ ws
      → (o' : Args A) × ((assign nil named i dst o ≡ some (none, vs, o')) × (flatten o'.rows ≡ ws))
  unfolding assign
  assign-Accepts nil named i [] [] ws o h e = (o, (refl, e))
  assign-Accepts nil named i [] (v ∷ vs) ws o h e = absurd h
  assign-Accepts nil named i (d ∷ dst) [] ws o h e = absurd h
  assign-Accepts nil named i (d ∷ dst) (v ∷ vs) ws o h e =
      let (o1, s) = shift-some nil o v (vs ++ ws) e in
      let (o2, r) = assign-Accepts nil named (i + 1) dst vs ws o1 h.1 s.1 in
      (o2, (ground (arith, s.0, h.0, r.0), r.1))

  assign-rejects :
      (nil : A) (named : Bool) (i : ℕ) (dst : List (Arg A)) (d : Arg A) (dst' : List (Arg A))
      (vs : List A) (v : A) (ws : List A) (o : Args A)
      → Accepts dst vs
      → str_eq (d.accept v) "" ≡ false
      → flatten o.rows ≡ vs ++ v ∷ ws
      → (o' : Args A) × (assign nil named i (dst ++ d ∷ dst') o
          ≡ some (
            some (argument_type (i + length dst) (if named then d.name else "") (d.accept v)),
            vs ++ v ∷ [],
            o',
          ))
  unfolding assign
  assign-rejects nil named i [] d dst' [] v ws o h n e =
      let (o1, s) = shift-some nil o v ws e in
      let at : i + 0 ≡ i = omega arith in (o1, ground (arith, s.0, n, at))
  assign-rejects nil named i [] d dst' (w ∷ vs) v ws o h n e = absurd h
  assign-rejects nil named i (c ∷ dst) d dst' [] v ws o h n e = absurd h
  assign-rejects nil named i (c ∷ dst) d dst' (w ∷ vs) v ws o h n e =
      let (o1, s) = shift-some nil o w (vs ++ v ∷ ws) e in
      let (o2, r) = assign-rejects nil named (i + 1) dst d dst' vs v ws o1 h.1 n s.1 in
      let at : i + suc (length dst) ≡ i + 1 + length dst = omega arith in
      (o2, ground (arith, s.0, h.0, r, at))

  -- `Destructure` does not panic. With another number of arguments than destinations it says so and
  -- touches nothing; with as many arguments, all accepted, it assigns them in order and has no error;
  -- and at the first argument that is not accepted it stops, after having assigned it too, with its
  -- place, counted from 0, and its destination's name.
  pub destructure-flatten :
      (nil : A) (dst : List (Arg A)) (o : Args A)
      → (length dst ≢ length (flatten o.rows)
          → destructure nil dst o
            ≡ some (some (wrong_num_arguments (length dst) (length (flatten o.rows))), [], o))
        × (Accepts dst (flatten o.rows)
            → (o' : Args A) × ((destructure nil dst o ≡ some (none, flatten o.rows, o'))
                × (flatten o'.rows ≡ [])))
        × ((before : List (Arg A)) (d : Arg A) (after : List (Arg A)) (vs : List A) (v : A)
              (ws : List A)
            → dst ≡ before ++ d ∷ after
            → flatten o.rows ≡ vs ++ v ∷ ws
            → length dst ≡ length (flatten o.rows)
            → Accepts before vs
            → str_eq (d.accept v) "" ≡ false
            → (o' : Args A) × (destructure nil dst o
                ≡ some
                    (some (argument_type (length before) d.name (d.accept v)), vs ++ v ∷ [], o')))
  unfolding destructure check_len
  destructure-flatten nil dst o = (
    λ ne. ground (arith, ne, arg_count-eq o),
    λ h.
        let n = length-Accepts dst (flatten o.rows) h in
        let (o', q) =
          assign-Accepts nil true 0 dst (flatten o.rows) [] o h
            (sym (append-nil (flatten o.rows))) in
        (o', (ground (arith, n, arg_count-eq o, q.0), q.1)),
    λ before d after vs v ws is e n h r.
        let (o', q) = assign-rejects nil true 0 before d after vs v ws o h r e in
        let at : 0 + length before ≡ length before = omega arith in
        (o', ground (arith, n, arg_count-eq o, ap (λ t. assign nil true 0 t o) is, q, at)),
  )

  -- `DestructureVar` does not panic. With fewer arguments than destinations it says so and touches
  -- nothing; when the first arguments are accepted it assigns them, and returns all the others in
  -- order; and at the first argument that is not accepted it stops with its place, counted from 0,
  -- and returns no others.
  pub destructure_var-flatten :
      (nil : A) (dst : List (Arg A)) (o : Args A)
      → (length (flatten o.rows) < length dst
          → destructure_var nil dst o
            ≡ some ([], some (wrong_num_arguments (length dst) (length (flatten o.rows))), [], o))
        × ((vs ws : List A)
            → flatten o.rows ≡ vs ++ ws
            → Accepts dst vs
            → (o' : Args A) × (destructure_var nil dst o ≡ some (ws, none, vs, o')))
        × ((before : List (Arg A)) (d : Arg A) (after : List (Arg A)) (vs : List A) (v : A)
              (ws : List A)
            → dst ≡ before ++ d ∷ after
            → flatten o.rows ≡ vs ++ v ∷ ws
            → length dst ≤ length (flatten o.rows)
            → Accepts before vs
            → str_eq (d.accept v) "" ≡ false
            → (o' : Args A) × (destructure_var nil dst o
                ≡ some
                    ([], some (argument_type (length before) "" (d.accept v)), vs ++ v ∷ [], o')))
  unfolding destructure_var check_min_len
  destructure_var-flatten nil dst o = (
    λ lt. ground (arith, lt, arg_count-eq o),
    λ vs ws e h.
        let n = length-Accepts dst vs h in
        let (o', q) = assign-Accepts nil false 0 dst vs ws o h e in
        let enough : length dst ≤ arg_count o =
          omega (arith, n, arg_count-eq o, ap length e, length-append vs ws) in
        (o', ground (arith, enough, q.0, values-eq o', q.1)),
    λ before d after vs v ws is e n h r.
        let (o', q) = assign-rejects nil false 0 before d after vs v ws o h r e in
        let at : 0 + length before ≡ length before = omega arith in
        (o', ground (arith, n, arg_count-eq o, ap (λ t. assign nil false 0 t o) is, q, at)),
  )
