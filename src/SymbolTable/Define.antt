-- ===== src/SymbolTable/Define.antt =====
-- symbol_table.go: new symbols. `DefineLocal`, `defineParamsVar`, `SetParams`, `SetNamedParams`,
-- `DefineGlobal`, `DefineGlobals` and `defineFree`.
use gad.Prelude.{
  String, ◌+◌, Bool, true, false, not, ◌&&◌, Option, none, some, List, [], ◌∷◌, ◌++◌, if◌then◌else◌,
  length, map,
}
use text.Mathlib.Text.{◌==◌ as str_eq}
use gad.Prelude.Int.{pos, negsuc}
use gad.Prelude.Dict
use gad.Prelude.Result.{Result, ok, err}
use gad.SymbolTable.Symbols.{
  scope_global, scope_local, scope_free, SymbolInfo, Symbol, symbol, at, info, is_constant, plain,
  is_scope,
}
use gad.SymbolTable.Tables.{
  Builtins, Param, NamedParam, SymbolTable, root, inner, own, with_own, next_index, update_max_defs,
}

pub data DefineError : Type 0 where
  not_at_top params_disabled params_defined named_params_defined index_out_of_range : DefineError
  redeclared : String → DefineError

unfoldable pub is_declared : Option Symbol → Bool
is_declared none = false
is_declared (some s) = true

-- `NewParam(param, ParamWithType(types[i]...))`, where too few types are an index out of range.
with_types : List String → List (List SymbolInfo) → Option (List Param)
with_types [] types = some []
with_types (n ∷ names) [] = none
with_types (n ∷ names) (t ∷ types) = elim (with_types names types) [
  | none ↦ none
  | some ps ↦ some (record { name = n; type = t; is_var = false } ∷ ps)
]

unfoldable pub make_params : List String → List (List SymbolInfo) → Option (List Param)
unfolding with_types
make_params names [] = some (map (λ n. record { name = n; type = []; is_var = false }) names)
make_params names (t ∷ types) = with_types names (t ∷ types)

unfoldable pub mark_last : List Param → List Param
mark_last [] = []
mark_last (p ∷ []) = record p { is_var = true } ∷ []
mark_last (p ∷ q ∷ ps) = p ∷ mark_last (q ∷ ps)

-- `if err == nil { … }`
unfoldable pub if_defined :
    (SymbolTable → Option DefineError × SymbolTable)
    → Option DefineError × SymbolTable
    → Option DefineError × SymbolTable
if_defined next (some e, st) = (some e, st)
if_defined next (none, st) = next st

unfoldable pub store_params :
    Bool → Option (List Param) → SymbolTable → Option DefineError × SymbolTable
store_params var_params none st = (some index_out_of_range, st)
store_params var_params (some ps) st =
    (none, with_own st (record (own st) { params = if var_params then mark_last ps else ps }))

unfoldable pub store_named_params : List NamedParam → SymbolTable → Option DefineError × SymbolTable
store_named_params ps st = (none, with_own st (record (own st) { named_params = ps }))

unfoldable pub cons_ok :
    Symbol → Result DefineError (List Symbol) → Result DefineError (List Symbol)
cons_ok s (ok ss) = ok (s ∷ ss)
cons_ok s (err e) = err e

unfoldable pub cons_global :
    Result DefineError Symbol × SymbolTable
    → (SymbolTable → Result DefineError (List Symbol) × SymbolTable)
    → Result DefineError (List Symbol) × SymbolTable
cons_global (err e, st) next = (err e, st)
cons_global (ok s, st) next = let r = next st in (cons_ok s r.0, r.1)

module _ (b : Builtins) where
  unfoldable pub shadow_builtin : String → SymbolTable → SymbolTable
  shadow_builtin name st =
      if b.has_name name
      then with_own st
          (record (own st) { shadowed_builtins = (own st).shadowed_builtins ++ name ∷ [] })
      else st

  -- A new symbol in the next slot: the common end of `DefineLocal` and the loop of
  -- `defineParamsVar`.
  unfoldable pub add_local : String → SymbolTable → Symbol × SymbolTable
  add_local name st =
      let index = next_index st in
      let s = plain (record { name = name; index = pos index; scope = scope_local }) in
      let t = own st in
      let st' =
        with_own st
          (record t { num_definition = t.num_definition + 1; store = Dict.put t.store name s }) in
      (s, shadow_builtin name (update_max_defs (index + 1) st'))

  -- The Boolean says whether the name was there before.
  unfoldable pub define_local : String → SymbolTable → Symbol × Bool × SymbolTable
  define_local name st = elim (Dict.get (own st).store name) [
    | some s ↦ (s, true, st)
    | none ↦ let r = add_local name st in (r.0, false, r.1)
  ]

  unfoldable pub define_free : Symbol → SymbolTable → Symbol × SymbolTable
  define_free orig st =
      let t = own st in
      let s =
        symbol
          (record { name = (info orig).name; index = pos (length t.frees); scope = scope_free })
          false (is_constant orig) (at orig) in
      let st' =
        with_own st (record t {
          frees = t.frees ++ orig ∷ [];
          store = Dict.put t.store (info orig).name s;
        }) in
      (s, shadow_builtin (info orig).name st')

  -- An error leaves the names before it defined.
  unfoldable pub define_params_loop : List String → SymbolTable → Option DefineError × SymbolTable
  unfolding is_declared
  define_params_loop [] st = (none, st)
  define_params_loop (param ∷ names) st =
      elim (is_declared (Dict.get (own st).store param) && not (str_eq param "_")) [
        | true ↦ (some (redeclared param), st)
        | false ↦ define_params_loop names (add_local param st).1
      ]

  unfoldable pub define_params_var : List String → SymbolTable → Option DefineError × SymbolTable
  define_params_var names st =
      if (own st).disable_params then (some params_disabled, st) else define_params_loop names st

  unfoldable pub set_params :
      Bool → List String → List (List SymbolInfo) → SymbolTable → Option DefineError × SymbolTable
  set_params var_params [] types st = (none, st)
  set_params var_params (name ∷ names) types st = elim (own st).params [
    | p ∷ ps ↦ (some params_defined, st)
    | [] ↦
        if_defined (store_params var_params (make_params (name ∷ names) types))
          (define_params_var (name ∷ names) st)
  ]

  unfoldable pub set_named_params : List NamedParam → SymbolTable → Option DefineError × SymbolTable
  set_named_params [] st = (none, st)
  set_named_params (p ∷ ps) st = elim (own st).named_params [
    | q ∷ qs ↦ (some named_params_defined, st)
    | [] ↦
        if_defined (store_named_params (p ∷ ps))
          (define_params_var (map (λ (n : NamedParam). n.name) (p ∷ ps)) st)
  ]

  unfoldable pub define_global : String → SymbolTable → Result DefineError Symbol × SymbolTable
  define_global name (inner block t p) = (err not_at_top, inner block t p)
  define_global name (root t) = elim (Dict.get t.store name) [
    | some s ↦
        (if is_scope (info s).scope scope_global then ok s else err (redeclared name), root t)
    | none ↦
        let s = plain (record { name = name; index = negsuc 0; scope = scope_global }) in
        (ok s, shadow_builtin name (root (record t { store = Dict.put t.store name s })))
  ]

  -- The symbols of the names that were defined before an error are dropped with it.
  unfoldable pub define_globals :
      List String → SymbolTable → Result DefineError (List Symbol) × SymbolTable
  unfolding cons_global
  define_globals [] st = (ok [], st)
  define_globals (name ∷ names) st =
      cons_global (define_global name st) (λ st'. define_globals names st')
