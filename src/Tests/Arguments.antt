-- ===== src/Tests/Arguments.antt =====
-- A call with two arguments and two spread ones.
use text.Mathlib.Text.{◌==◌ as str_eq}
use gad.Prelude.{
  ℕ, ◌<◌, ◌≤◌, ◌≡◌, ◌≢◌, true, false, ◌==◌, Option, none, some, List, [], ◌∷◌, ◌++◌, length,
  get_elem?, if◌then◌else◌,
}
use gad.Args.{Args, fresh, array, get_only, get, get_ij, arg_count, values, walk_skip}
use gad.Args.Flat.{flatten, flatten_view, get_ij-flatten}
use gad.Args.Walk.{walk_skip-first}
use gad.Args.Shift.{shift_ok, seen_from, shift_ok-flatten, shift_ok-shared}
use gad.Args.Destructure.{Arg, argument_type, wrong_num_arguments, destructure, destructure_var}
use gad.Args.Destructure.Laws.{Accepts, destructure-flatten, destructure_var-flatten}

abbrev call_args : Args ℕ
call_args = fresh ([] ∷ (10 ∷ 11 ∷ []) ∷ [] ∷ (12 ∷ 13 ∷ []) ∷ [])

abbrev small : Arg ℕ
small = record { name = "n"; accept = λ v. if v == 12 then "int" else "" }

flatten_view_example :
    (array call_args ≡ flatten call_args.rows)
    × (values call_args ≡ some (flatten call_args.rows))
    × (arg_count call_args ≡ length (flatten call_args.rows))
    × ((n : ℕ)
        → (get_only call_args n ≡ some (get_elem? (flatten call_args.rows) n))
          × (get call_args n ≡ get_elem? (flatten call_args.rows) n))
flatten_view_example = flatten_view call_args

get_ij-flatten_example :
    (2 < length (flatten call_args.rows)
      → (get_ij call_args 2).2 ≡ true
        × (row : List ℕ) × ((get_elem? call_args.rows (get_ij call_args 2).0 ≡ some row)
            × (get_elem? row (get_ij call_args 2).1 ≡ get_elem? (flatten call_args.rows) 2)))
    × (length (flatten call_args.rows) ≤ 2 → (get_ij call_args 2).2 ≡ false)
get_ij-flatten_example = get_ij-flatten call_args 2

abbrev even_only : ℕ → ℕ → Option ℕ
even_only i v = if v == 12 then some i else none

walk_skip-first_example :
    ((n a r : ℕ)
      → 1 ≤ n
      → get_elem? (flatten call_args.rows) n ≡ some a
      → even_only n a ≡ some r
      → ((m b : ℕ)
          → 1 ≤ m
          → m < n
          → get_elem? (flatten call_args.rows) m ≡ some b
          → even_only m b ≡ none)
      → walk_skip 1 even_only call_args ≡ some r)
    × (((m b : ℕ) → 1 ≤ m → get_elem? (flatten call_args.rows) m ≡ some b → even_only m b ≡ none)
        → walk_skip 1 even_only call_args ≡ none)
walk_skip-first_example = walk_skip-first even_only 1 call_args

shift_ok-flatten_example :
    (flatten call_args.rows ≡ []
      → (o' : Args ℕ) × ((shift_ok call_args ≡ some (none, o')) × (flatten o'.rows ≡ [])))
    × ((v : ℕ) (vs : List ℕ)
        → flatten call_args.rows ≡ v ∷ vs
        → (o' : Args ℕ) × ((shift_ok call_args ≡ some (some v, o')) × (flatten o'.rows ≡ vs)))
shift_ok-flatten_example = shift_ok-flatten call_args

shift_ok-shared_example :
    (o' : Args ℕ) × ((shift_ok (record { dropped = [] ∷ []; rows = (10 ∷ 11 ∷ []) ∷ [] })
        ≡ some (some 10, o'))
      × (◌≡◌ {A = List ℕ} (11 ∷ []) [] → seen_from 1 o' ≡ (10 ∷ 11 ∷ []) ∷ [])
      × ((y : ℕ) (ys : List ℕ) → (11 ∷ []) ≡ y ∷ ys → seen_from 1 o' ≡ (11 ∷ []) ∷ []))
shift_ok-shared_example = shift_ok-shared ([] ∷ []) 10 (11 ∷ []) []

destructure-flatten_example :
    (2 ≢ length (flatten call_args.rows)
      → destructure 0 (small ∷ small ∷ []) call_args
        ≡ some (some (wrong_num_arguments 2 (length (flatten call_args.rows))), [], call_args))
    × (Accepts (small ∷ small ∷ []) (flatten call_args.rows)
        → (o' : Args ℕ) × ((destructure 0 (small ∷ small ∷ []) call_args
              ≡ some (none, flatten call_args.rows, o'))
            × (flatten o'.rows ≡ [])))
    × ((before : List (Arg ℕ)) (d : Arg ℕ) (after : List (Arg ℕ)) (vs : List ℕ) (v : ℕ)
          (ws : List ℕ)
        → small ∷ small ∷ [] ≡ before ++ d ∷ after
        → flatten call_args.rows ≡ vs ++ v ∷ ws
        → 2 ≡ length (flatten call_args.rows)
        → Accepts before vs
        → str_eq (d.accept v) "" ≡ false
        → (o' : Args ℕ) × (destructure 0 (small ∷ small ∷ []) call_args
            ≡ some (some (argument_type (length before) d.name (d.accept v)), vs ++ v ∷ [], o')))
destructure-flatten_example = destructure-flatten 0 (small ∷ small ∷ []) call_args

destructure_var-flatten_example :
    (length (flatten call_args.rows) < 2
      → destructure_var 0 (small ∷ small ∷ []) call_args
        ≡ some ([], some (wrong_num_arguments 2 (length (flatten call_args.rows))), [], call_args))
    × ((vs ws : List ℕ)
        → flatten call_args.rows ≡ vs ++ ws
        → Accepts (small ∷ small ∷ []) vs
        → (o' : Args ℕ) × (destructure_var 0 (small ∷ small ∷ []) call_args
            ≡ some (ws, none, vs, o')))
    × ((before : List (Arg ℕ)) (d : Arg ℕ) (after : List (Arg ℕ)) (vs : List ℕ) (v : ℕ)
          (ws : List ℕ)
        → small ∷ small ∷ [] ≡ before ++ d ∷ after
        → flatten call_args.rows ≡ vs ++ v ∷ ws
        → 2 ≤ length (flatten call_args.rows)
        → Accepts before vs
        → str_eq (d.accept v) "" ≡ false
        → (o' : Args ℕ) × (destructure_var 0 (small ∷ small ∷ []) call_args
            ≡ some ([], some (argument_type (length before) "" (d.accept v)), vs ++ v ∷ [], o')))
destructure_var-flatten_example = destructure_var-flatten 0 (small ∷ small ∷ []) call_args
