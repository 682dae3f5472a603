-- ===== src/Args/Destructure.antt =====
-- The checks of the number of arguments, and `Destructure`, `DestructureValue`, `DestructureVar`
-- and `ShiftArg`, which take the arguments off one by one. `DestructureTo`, which sets variables by
-- reflection, is not modelled.
pub mod Laws
use gad.Prelude.{
  String, ℕ, zero, suc, ◌+◌, Bool, true, false, ◌||◌, Option, none, some, List, [], ◌∷◌, ltb, ◌==◌,
  not, if◌then◌else◌, length,
}
use text.Mathlib.Text.{◌==◌ as str_eq}
use gad.Prelude.Result.{◌>>=◌}
use gad.Args.{Args, arg_count, values}
use gad.Args.Shift.{shift, shift_ok}

-- A destination: `Accept` of its type assertion gives the types that it wanted instead, and the
-- empty text where it accepts the value.
pub record Arg {ℓ} (A : Type ℓ) : Type ℓ where
  pub name : String
  pub accept : A → String

pub data ArgError : Type 0 where
  wrong_num_arguments : ℕ → ℕ → ArgError
  argument_type : ℕ → String → String → ArgError

module _ {ℓ} {A : Type ℓ} where
  unfoldable pub check_len : Args A → ℕ → Option ArgError
  check_len o n = if n == arg_count o then none else some (wrong_num_arguments n (arg_count o))

  unfoldable pub check_min_len : Args A → ℕ → Option ArgError
  check_min_len o n =
      if ltb (arg_count o) n then some (wrong_num_arguments n (arg_count o)) else none

  unfoldable pub check_max_len : Args A → ℕ → Option ArgError
  check_max_len o n =
      if ltb n (arg_count o) then some (wrong_num_arguments n (arg_count o)) else none

  -- The error names both bounds; here it has the one that was passed.
  unfoldable pub check_range_len : Args A → ℕ → ℕ → Option ArgError
  check_range_len o lo hi =
      if ltb (arg_count o) lo
      then some (wrong_num_arguments lo (arg_count o))
      else if ltb hi (arg_count o)
      then some (wrong_num_arguments hi (arg_count o))
      else none

  -- The loop over the destinations: the error, the values that were assigned, and the arguments
  -- left. Only `Destructure` names the destination in its error.
  unfoldable pub assign :
      A → Bool → ℕ → List (Arg A) → Args A → Option (Option ArgError × List A × Args A)
  assign nil named i [] o = some (none, [], o)
  assign nil named i (d ∷ dst) o = do
    r ← shift nil o
    elim (str_eq (d.accept r.0) "") [
      | false ↦
          some (some (argument_type i (if named then d.name else "") (d.accept r.0)), r.0 ∷ [], r.1)
      | true ↦ do q ← assign nil named (i + 1) dst r.1; some (q.0, r.0 ∷ q.1, q.2)
    ]

  unfoldable pub destructure :
      A → List (Arg A) → Args A → Option (Option ArgError × List A × Args A)
  destructure nil dst o = elim (check_len o (length dst)) [
    | some e ↦ some (some e, [], o)
    | none ↦ assign nil true 0 dst o
  ]

  unfoldable pub destructure_value :
      A → List (Arg A) → Args A → Option (Option ArgError × List A × Args A)
  destructure_value nil dst o = assign nil false 0 dst o

  -- With the arguments that are left over; none of them where there is an error.
  unfoldable pub destructure_var :
      A → List (Arg A) → Args A → Option (List A × Option ArgError × List A × Args A)
  destructure_var nil dst o = elim (check_min_len o (length dst)) [
    | some e ↦ some ([], some e, [], o)
    | none ↦ do
      r ← assign nil false 0 dst o
      elim r.0 [
        | some e ↦ some ([], some e, r.1, r.2)
        | none ↦ do other ← values r.2; some (other, none, r.1, r.2)
      ]
  ]

  -- The count of shifts, the value assigned, whether it was, and the error.
  unfoldable pub shift_arg :
      A → ℕ → Arg A → Args A → Option (Bool × Option ArgError × ℕ × A × Args A)
  shift_arg nil shifts dst o = do
    r ← shift_ok o
    elim r.0 [
      | none ↦ some (false, none, shifts, nil, r.1)
      | some v ↦
          if str_eq (dst.accept v) ""
          then some (true, none, shifts + 1, v, r.1)
          else some (false, some (argument_type (shifts + 1) "" (dst.accept v)), shifts + 1, v, r.1)
    ]
