-- ===== src/SymbolTable/Resolve.antt =====
-- symbol_table.go: `Resolve`, `find`, and the builtins that a table disables and shadows.
use gad.Prelude.{
  String, Bool, false, not, ◌&&◌, ◌||◌, Option, none, some, List, [], ◌∷◌, ◌++◌, if◌then◌else◌,
}
use text.Mathlib.Text.{◌==◌ as str_eq}
use gad.Prelude.Int.{pos}
use gad.Prelude.Dict
use gad.SymbolTable.Symbols.{
  SymbolScope, scope_global, scope_builtin, Symbol, info, plain, is_scope,
}
use gad.SymbolTable.Tables.{Builtins, Table, SymbolTable, root, inner, own}
use gad.SymbolTable.Define.{define_free}

unfoldable pub contains : List String → String → Bool
contains [] name = false
contains (n ∷ ns) name = str_eq n name || contains ns name

has_scope : List SymbolScope → SymbolScope → Bool
has_scope [] sc = false
has_scope (s ∷ ss) sc = is_scope s sc || has_scope ss sc

unfoldable pub find : String → List SymbolScope → SymbolTable → Option Symbol
unfolding has_scope
find name scopes st = elim (Dict.get (own st).store name) [
  | none ↦ none
  | some s ↦ elim scopes [
    | [] ↦ some s
    | x ∷ xs ↦ if has_scope (x ∷ xs) (info s).scope then some s else none
  ]
]

-- The names are a set; a name that stands twice is in it once.
unfoldable pub disable_builtin : List String → SymbolTable → SymbolTable
disable_builtin names (root t) =
    root (record t { disabled_builtins = names ++ t.disabled_builtins })
disable_builtin names (inner block t p) = inner block t (disable_builtin names p)

unfoldable pub disabled_builtins : SymbolTable → List String
disabled_builtins (root t) = t.disabled_builtins
disabled_builtins (inner block t p) = disabled_builtins p

unfoldable pub is_builtin_disabled : SymbolTable → String → Bool
is_builtin_disabled (root t) name = contains t.disabled_builtins name
is_builtin_disabled (inner block t p) name = is_builtin_disabled p name

unfoldable pub shadowed_builtins : SymbolTable → List String
shadowed_builtins (root t) = t.shadowed_builtins
shadowed_builtins (inner block t p) = t.shadowed_builtins ++ shadowed_builtins p

-- A symbol that a function refers to across its boundary is captured.
unfoldable pub needs_capture : Bool → Symbol → Bool
needs_capture block s =
    not block
    && not (is_scope (info s).scope scope_global)
    && not (is_scope (info s).scope scope_builtin)

module _ (b : Builtins) where
  unfoldable pub resolve_builtin : String → Table → Option Symbol × SymbolTable
  resolve_builtin name t =
      if contains t.disabled_builtins name then (none, root t) else elim (b.index name) [
        | none ↦ (none, root t)
        | some idx ↦
            let s = plain (record { name = name; index = pos idx; scope = scope_builtin }) in
            (some s, root (record t { store = Dict.put t.store name s }))
      ]

  -- What an outer table found, seen from an inner one.
  unfoldable pub bring_in : Bool → Table → Option Symbol × SymbolTable → Option Symbol × SymbolTable
  bring_in block t (none, p) = (none, inner block t p)
  bring_in block t (some s, p) =
      if needs_capture block s
      then (let r = define_free b s (inner block t p) in (some r.0, r.1))
      else (some s, inner block t p)

  unfoldable pub resolve : String → SymbolTable → Option Symbol × SymbolTable
  unfolding resolve_builtin bring_in
  resolve name (root t) = elim (Dict.get t.store name) [
    | some s ↦ (some s, root t)
    | none ↦ resolve_builtin name t
  ]
  resolve name (inner block t p) = elim (Dict.get t.store name) [
    | some s ↦ (some s, inner block t p)
    | none ↦ bring_in block t (resolve name p)
  ]
