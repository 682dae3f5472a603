-- ===== src/Methods/Table.antt =====
-- `MethodArgType` and `Methods` of methods.go: adding a method for a path of types, and looking one
-- up by the types of the arguments.
use gad.Prelude.{
  ℕ, Bool, true, false, not, ◌&&◌, Option, none, some, List, [], ◌∷◌, ◌++◌, length, if◌then◌else◌,
}
use gad.Methods.{
  TypeKey, CallerMethod, MethodArgType, Methods, arg_type, no_entries, own_methods, next, find_type,
  store_type,
}
use gad.Methods.Signature.{tree, walk_node}

-- `ErrMethodDuplication`, whose text names the method.
pub data MethodError : Type 0 where
  method_duplication : MethodError

-- The first of two that is not nil.
abbrev pub or_else {ℓ} : {A : Type ℓ} → Option A → Option A → Option A
or_else none d = d
or_else (some a) d = some a

module _ {ℓ} {H : Type ℓ} where
  unfoldable pub is_empty : List (CallerMethod H) → Bool
  is_empty [] = true
  is_empty (m ∷ ms) = false

  -- `len(at.Methods) > 0 && !override`
  unfoldable pub is_taken : Bool → List (CallerMethod H) → Bool
  is_taken override ms = not (is_empty ms) && not override

  -- `m2`, the copy of a method that is stored.
  unfoldable pub placed : List TypeKey → CallerMethod H → List (CallerMethod H) → CallerMethod H
  placed pth m ms = record {
    is_default = m.is_default;
    caller_object = m.caller_object;
    types = pth;
    index = length ms;
  }

  -- `cur`, the entry of the type or a new one.
  unfoldable pub entry_of : TypeKey → Methods H → MethodArgType H
  entry_of k args = elim (find_type args k) [ some at ↦ at | none ↦ arg_type k [] no_entries ]

  -- `at.add` and `args.Add`, which call each other.
  unfoldable pub add_method :
      List TypeKey
      → List TypeKey
      → CallerMethod H
      → Bool
      → MethodArgType H
      → Option MethodError × MethodArgType H
  add_method pth [] m override (arg_type t ms args) =
      if is_taken override ms
      then (some method_duplication, arg_type t ms args)
      else (none, arg_type t (ms ++ placed pth m ms ∷ []) args)
  add_method pth (k ∷ ks) m override (arg_type t ms args) =
      let r = add_method (pth ++ k ∷ []) ks m override (entry_of k args) in
      (r.0, arg_type t ms (store_type args k r.1))

  unfoldable pub add_types :
      List (List ℕ) → CallerMethod H → Bool → MethodArgType H → Option MethodError × MethodArgType H
  add_types types m override at =
      walk_node (λ path. add_method [] path m override) [] (tree types) at

  unfoldable pub last_method : List (CallerMethod H) → Option (CallerMethod H)
  last_method [] = none
  last_method (m ∷ ms) = or_else (last_method ms) (some m)

  -- `args[types[0]]`, or else `args[nil]`.
  unfoldable pub pick : Methods H → TypeKey → Option (MethodArgType H)
  pick args k = or_else (find_type args k) (find_type args none)

  -- The loop of `args.GetMethod`, with the last `at`.
  unfoldable pub get_loop :
      Option (MethodArgType H) → Methods H → List TypeKey → Option (CallerMethod H)
  get_loop none args [] = none
  get_loop (some at) args [] = last_method (own_methods at)
  get_loop at args (k ∷ ks) = elim (pick args k) [
    | none ↦ none
    | some found ↦ get_loop (some found) (next found) ks
  ]

  unfoldable pub get_method : MethodArgType H → List TypeKey → Option (CallerMethod H)
  get_method at [] = last_method (own_methods at)
  get_method at (k ∷ ks) = get_loop none (next at) (k ∷ ks)
