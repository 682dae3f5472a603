-- ===== src/Methods/Caller.antt =====
-- `CallerObjectWithMethods` of methods.go: a callable object with a table of methods, which is
-- filled with the object's own signature when the first method is added.
use gad.Prelude.{ℕ, Bool, true, false, Option, none, some, List, [], ◌∷◌, ◌++◌, if◌then◌else◌}
use gad.Prelude.Result.{Result, ok, err}
use gad.Args.{Args}
use gad.Methods.{TypeKey, CallerMethod, MethodArgType, arg_type, no_entries}
use gad.Methods.Table.{MethodError, add_types, get_method}

-- What the type assertions on a callable object give: its `ParamTypes`, the signatures and handlers
-- of `GetGoMethods`, and `CanValidateParamTypes`; `none` where it has no such method.
pub record Callable {ℓ} (H : Type ℓ) (E : Type 0) : Type ℓ where
  pub param_types : H → Option (Result E (List (List ℕ)))
  pub go_methods : H → List (List (List ℕ) × H)
  pub can_validate : H → Option Bool

pub record CallerObjectWithMethods {ℓ} (H : Type ℓ) : Type ℓ where
  pub caller_object : H
  pub methods : MethodArgType H
  pub registered : Bool

pub data AddError (E : Type 0) : Type 0 where
  param_types_error : E → AddError E
  method_error : MethodError → AddError E

abbrev pub as_error : {E : Type 0} → Option MethodError → Option (AddError E)
as_error none = none
as_error (some e) = some (method_error e)

module _ {ℓ} {H : Type ℓ} where
  unfoldable pub new_caller : H → CallerObjectWithMethods H
  new_caller c = record {
    caller_object = c;
    methods = arg_type none [] no_entries;
    registered = false;
  }

  -- `&CallerMethod{CallerObject: c}`, with or without `Default`.
  unfoldable pub method_of : Bool → H → CallerMethod H
  method_of default c = record { is_default = default; caller_object = c; types = []; index = 0 }

  -- The errors of `Add` are dropped here.
  unfoldable pub add_go_methods : List (List (List ℕ) × H) → MethodArgType H → MethodArgType H
  add_go_methods [] at = at
  add_go_methods ((types, c) ∷ ms) at =
      add_go_methods ms (add_types types (method_of false c) true at).1

  get_caller : Option (CallerMethod H) → Option H
  get_caller none = none
  get_caller (some m) = some m.caller_object

  -- `GetMethod` of the object, which gives the handler.
  unfoldable pub get_handler : CallerObjectWithMethods H → List TypeKey → Option H
  unfolding get_caller
  get_handler o types = get_caller (get_method o.methods types)

-- The walk over the arguments, which appends their types; the type of an argument, `type_of`, is
-- the argument itself where it is a type.
unfoldable pub collect_row {κ} : {A : Type κ} → (A → TypeKey) → List TypeKey → List A → List TypeKey
collect_row type_of types [] = types
collect_row type_of types (arg ∷ row) = collect_row type_of (types ++ type_of arg ∷ []) row

unfoldable pub collect_types {κ} :
    {A : Type κ} → (A → TypeKey) → List TypeKey → List (List A) → List TypeKey
collect_types type_of types [] = types
collect_types type_of types (row ∷ rows) =
    collect_types type_of (collect_row type_of types row) rows

module _ {ℓ} {H : Type ℓ} {E : Type 0} (callable : Callable H E) where
  unfoldable pub register_default :
      List (List ℕ) → CallerObjectWithMethods H → CallerObjectWithMethods H
  register_default types o =
      let own = (add_types types (method_of true o.caller_object) false o.methods).1 in
      let all = add_go_methods (callable.go_methods o.caller_object) own in
      record { caller_object = o.caller_object; methods = all; registered = true }

  unfoldable pub as_registered : CallerObjectWithMethods H → CallerObjectWithMethods H
  as_registered o = record {
    caller_object = o.caller_object;
    methods = o.methods;
    registered = true;
  }

  -- With what `ParamTypes` of the object returned, if it has any.
  unfoldable pub register_by :
      Option (Result E (List (List ℕ)))
      → CallerObjectWithMethods H
      → Option (AddError E) × CallerObjectWithMethods H
  register_by none o = (none, o)
  register_by (some (err e)) o = (some (param_types_error e), o)
  register_by (some (ok types)) o = (none, register_default types o)

  -- The first addition registers the object's own signature; where that fails, the object counts as
  -- registered all the same.
  unfoldable pub register_first :
      CallerObjectWithMethods H → Option (AddError E) × CallerObjectWithMethods H
  register_first o =
      if o.registered
      then (none, o)
      else register_by (callable.param_types o.caller_object) (as_registered o)

  unfoldable pub add_handler :
      List (List ℕ)
      → H
      → Bool
      → CallerObjectWithMethods H
      → Option (AddError E) × CallerObjectWithMethods H
  add_handler types handler override o =
      let r = add_types types (method_of false handler) override o.methods in
      (
        as_error r.0,
        record { caller_object = o.caller_object; methods = r.1; registered = o.registered },
      )

  -- What follows the registration.
  unfoldable pub add_after :
      List (List ℕ)
      → H
      → Bool
      → Option (AddError E) × CallerObjectWithMethods H
      → Option (AddError E) × CallerObjectWithMethods H
  add_after types handler override (some e, o) = (some e, o)
  add_after types handler override (none, o) = add_handler types handler override o

  unfoldable pub add_caller_method :
      List (List ℕ)
      → H
      → Bool
      → CallerObjectWithMethods H
      → Option (AddError E) × CallerObjectWithMethods H
  add_caller_method types handler override o = add_after types handler override (register_first o)

  -- `AddCallerMethod` of the package: several methods, up to the first that fails.
  unfoldable pub add_caller_methods :
      List (List (List ℕ) × H × Bool)
      → CallerObjectWithMethods H
      → Option (AddError E) × CallerObjectWithMethods H
  add_caller_methods [] o = (none, o)
  add_caller_methods ((types, handler, override) ∷ ds) o =
      let (error, p) = add_caller_method types handler override o in
      elim error [ some e ↦ (some e, p) | none ↦ add_caller_methods ds p ]

  -- Whether the parameters of the object have to be validated.
  unfoldable pub validates : H → Bool
  validates c = elim (callable.can_validate c) [ none ↦ false | some v ↦ v ]

  -- The handler of the method that was found, if any, and whether to validate.
  unfoldable pub chosen : H → Option (CallerMethod H) → H × Bool
  chosen c (some m) = (m.caller_object, false)
  chosen c none = (c, validates c)

  unfoldable pub caller_of_types : CallerObjectWithMethods H → List TypeKey → H × Bool
  caller_of_types o types = chosen o.caller_object (get_method o.methods types)

  unfoldable pub caller_of {κ} :
      {A : Type κ} → (A → TypeKey) → CallerObjectWithMethods H → Args A → H × Bool
  caller_of type_of o args =
      if o.registered
      then caller_of_types o (collect_types type_of [] args.rows)
      else (o.caller_object, validates o.caller_object)
