-- ===== src/SymbolTable/Lexical.antt =====
-- What `Resolve` finds: the innermost definition, by way of captures, where the code can reach it.
use gad.Prelude.{
  String, ◌≡◌, inl, inr, refl, ◌∙◌, Bool, Bool-cases, Option-cases, if◌then◌else◌, Option, none,
  some, arith,
}
use gad.Prelude.Int.{pos}
use mathlib.Core.Option
use gad.Prelude.Dict
use gad.SymbolTable.Symbols.{scope_builtin, Symbol, plain, definition}
use gad.SymbolTable.Tables.{Builtins, Table, SymbolTable, root, inner}
use gad.SymbolTable.Define.{define_free}
use gad.SymbolTable.Resolve.{resolve, bring_in, needs_capture, contains}

-- The builtin of a name, where it is not disabled.
unfoldable pub builtin_symbol : Builtins → String → Table → Option Symbol
builtin_symbol b name t = if contains t.disabled_builtins name then none else elim (b.index name) [
  | none ↦ none
  | some i ↦ some (plain (record { name = name; index = pos i; scope = scope_builtin }))
]

unfoldable pub or_else : Option Symbol → Option Symbol → Option Symbol
or_else (some s) o = some s
or_else none o = o

-- The symbol that the innermost table with the name has, and a builtin where none has it.
unfoldable pub lexical : Builtins → String → SymbolTable → Option Symbol
unfolding builtin_symbol or_else
lexical b name (root t) = or_else (Dict.get t.store name) (builtin_symbol b name t)
lexical b name (inner block t p) = or_else (Dict.get t.store name) (lexical b name p)

module _ (b : Builtins) where
  bring_in-definition :
      (block : Bool) (t : Table) (r : Option Symbol × SymbolTable)
      → Option.map definition (bring_in b block t r).0 ≡ Option.map definition r.0
  unfolding bring_in define_free definition
  bring_in-definition block t (none, p) = refl
  bring_in-definition block t (some s, p) = elim (Bool-cases (needs_capture block s)) [
    | inl y ↦ rw y
    | inr n ↦ rw n
  ]

  -- `Resolve` finds a symbol exactly when the innermost table that has the name, or else the
  -- enabled builtins, give one; and what it finds is this symbol, or captures whose chain of
  -- originals ends in the same definition.
  pub resolve-lexical :
      (name : String) (st : SymbolTable)
      → Option.map definition (resolve b name st).0 ≡ Option.map definition (lexical b name st)
  unfolding resolve lexical
  resolve-lexical name (root t) = elim (Option-cases (Dict.get t.store name)) [
    | inl e ↦ rw (e, resolve, lexical) (ground arith)
    | inr (s, e) ↦ rw (e, resolve, lexical)
  ]
  resolve-lexical name (inner block t p) = elim (Option-cases (Dict.get t.store name)) [
    | inl e ↦
        rw (e, resolve, lexical)
          (bring_in-definition block t (resolve b name p) ∙ resolve-lexical name p)
    | inr (s, e) ↦ rw (e, resolve, lexical)
  ]
