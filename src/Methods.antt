-- ===== src/Methods.antt =====
-- The methods of a callable object, methods.go. A type is known by its identity, a number, and an
-- empty place of a signature, which any type fills, is the nil type, `none`. This file has the data;
-- Methods/Signature.antt the signatures and their tree, Methods/Table.antt the table of methods and
-- the lookup of one, Methods/Caller.antt the callable object with its methods. The other files have
-- their laws. `Remove` of a method, which nothing calls and whose field `arg` nothing sets, is left
-- out, so no list of methods is ever emptied.
pub mod Signature
pub mod Product
pub mod Picks
pub mod Table
pub mod Paths
pub mod Adding
pub mod Indexes
pub mod Whole
pub mod Wildcard
pub mod Caller
pub mod Calls
use gad.Prelude.{ℕ, Bool, Option, none, some, List, [], ◌∷◌, ◌==◌, false, true, if◌then◌else◌}

-- An `ObjectType`, or nil.
abbrev pub TypeKey : Type 0
TypeKey = Option ℕ

-- `types[i] == key`, as Go compares two values of an interface type.
abbrev pub same_type : TypeKey → TypeKey → Bool
same_type none none = true
same_type (some a) (some b) = a == b
same_type _ _ = false

-- `arg`, which nothing sets, is left out.
pub record CallerMethod {ℓ} (H : Type ℓ) : Type ℓ where
  pub is_default : Bool
  pub caller_object : H
  pub types : List TypeKey
  pub index : ℕ

-- The map `Next` is a list of entries; a nil one is empty.
mutual
  pub data MethodArgType {ℓ} (H : Type ℓ) : Type ℓ where
    arg_type : TypeKey → List (CallerMethod H) → Methods H → MethodArgType H

  pub data Methods {ℓ} (H : Type ℓ) : Type ℓ where
    no_entries : Methods H
    entry : TypeKey → MethodArgType H → Methods H → Methods H

module _ {ℓ} {H : Type ℓ} where
  unfoldable pub own_methods : MethodArgType H → List (CallerMethod H)
  own_methods (arg_type t ms next) = ms

  unfoldable pub next : MethodArgType H → Methods H
  next (arg_type t ms n) = n

  -- `args[k]`
  unfoldable pub find_type : Methods H → TypeKey → Option (MethodArgType H)
  find_type no_entries k = none
  find_type (entry j at m) k = if same_type j k then some at else find_type m k

  -- `args[k] = at`
  unfoldable pub store_type : Methods H → TypeKey → MethodArgType H → Methods H
  store_type no_entries k at = entry k at no_entries
  store_type (entry j old m) k at =
      if same_type j k then entry k at m else entry j old (store_type m k at)
