-- ===== src/Tests/Symbols.antt =====
-- A function that refers to a variable of the function round it, from a block.
use gad.Prelude.{◌∷◌, [], String, ◌+◌, ◌≡◌, refl, true, false, none, some, if◌then◌else◌}
use mathlib.Core.Option
use text.Mathlib.Text.{◌==◌ as str_eq}
use gad.Prelude.Int.{pos}
use gad.Prelude.Dict
use gad.SymbolTable.Symbols.{
  Symbol, symbol, at, scope_local, scope_free, plain, definition, is_scope,
}
use gad.SymbolTable.Tables.{
  own, Builtins, SymbolTable, new_symbol_table, fork, next_index, update_max_defs, raise_max,
}
use gad.SymbolTable.Parameters.{param_symbol, set_params-slots}
use gad.SymbolTable.Define.{
  set_params, define_params_var, define_params_loop, is_declared, if_defined, store_params,
  make_params, mark_last, define_local, add_local, define_free, shadow_builtin,
}
use gad.SymbolTable.Resolve.{resolve, bring_in, needs_capture, resolve_builtin}
use gad.SymbolTable.Validity.{IsValid}
use gad.SymbolTable.Reachable.{IsReachable, resolve-IsReachable}
use gad.SymbolTable.Again.{resolve_twice}
use gad.SymbolTable.Lexical.{lexical, resolve-lexical}
use gad.SymbolTable.Meaning.{meaning, meaning-resolve}
use gad.SymbolTable.Defined.{meaning-define_local}
use gad.SymbolTable.Slots.{Holds, here, outside, slot_unique}
use gad.SymbolTable.History.{
  Reach, starts, goes, forks, defines_local, Reach-IsValid, Reach-slot_unique,
}

abbrev no_builtins : Builtins
no_builtins = record { index = λ n. none; has_name = λ n. false }

-- func(){ x := 1; func(){ y := 2; { x } } }
abbrev outer_function : SymbolTable
outer_function = (define_local no_builtins "x" (fork false new_symbol_table)).2

abbrev inner_function : SymbolTable
inner_function = (define_local no_builtins "y" (fork false outer_function)).2

abbrev inner_block : SymbolTable
inner_block = (define_local no_builtins "z" (fork true inner_function)).2

inner_block-Reach : Reach no_builtins inner_block
inner_block-Reach =
    goes
      (goes
        (goes (goes (goes (goes starts (forks false)) (defines_local "x")) (forks false))
          (defines_local "y"))
        (forks true))
      (defines_local "z")

abbrev local_x : Symbol
local_x = plain (record { name = "x"; index = pos 0; scope = scope_local })

abbrev captured_x : Symbol
captured_x =
    symbol (record { name = "x"; index = pos 0; scope = scope_free }) false false (at local_x)

abbrev local_y : Symbol
local_y = plain (record { name = "y"; index = pos 0; scope = scope_local })

abbrev local_z : Symbol
local_z = plain (record { name = "z"; index = pos 1; scope = scope_local })

x_found : (resolve no_builtins "x" inner_block).0 ≡ some captured_x
unfolding resolve bring_in needs_capture is_scope define_free define_local add_local shadow_builtin
    fork next_index update_max_defs raise_max resolve_builtin Dict.get Dict.put
x_found = refl

y_held : Holds inner_block "y" local_y
unfolding define_local add_local shadow_builtin fork next_index update_max_defs raise_max Dict.get
    Dict.put
y_held = outside (here refl)

z_held : Holds inner_block "z" local_z
unfolding define_local add_local shadow_builtin fork next_index update_max_defs raise_max Dict.get
    Dict.put
z_held = here refl

resolve-lexical_example :
    Option.map definition (resolve no_builtins "x" inner_block).0
    ≡ Option.map definition (lexical no_builtins "x" inner_block)
resolve-lexical_example = resolve-lexical no_builtins "x" inner_block

resolve-IsReachable_example : IsReachable (resolve no_builtins "x" inner_block).1 captured_x
resolve-IsReachable_example =
    resolve-IsReachable no_builtins "x" inner_block captured_x (Reach-IsValid inner_block-Reach)
      x_found

resolve_twice_example :
    resolve no_builtins "x" (resolve no_builtins "x" inner_block).1
    ≡ resolve no_builtins "x" inner_block
resolve_twice_example = resolve_twice no_builtins "x" inner_block (Reach-IsValid inner_block-Reach)

meaning-resolve_example :
    meaning no_builtins "y" (resolve no_builtins "x" inner_block).1
    ≡ meaning no_builtins "y" inner_block
meaning-resolve_example =
    meaning-resolve no_builtins "y" "x" inner_block (Reach-IsValid inner_block-Reach)

meaning-define_local_example :
    let r = define_local no_builtins "x" inner_block in
    ((m : String)
      → meaning no_builtins m r.2
        ≡ (if str_eq "x" m then some (definition r.0) else meaning no_builtins m inner_block))
    × (resolve no_builtins "x" r.2 ≡ (some r.0, r.2))
meaning-define_local_example = meaning-define_local no_builtins "x" inner_block

slot_unique_example : (◌≡◌ {A = String} "y" "y") × (local_y ≡ local_y)
slot_unique_example = slot_unique (Reach-IsValid inner_block-Reach) y_held y_held refl refl refl

Reach-slot_unique_example : (◌≡◌ {A = String} "z" "z") × (local_z ≡ local_z)
Reach-slot_unique_example = Reach-slot_unique inner_block-Reach z_held z_held refl refl refl

Reach-IsValid_example : IsValid inner_block
Reach-IsValid_example = Reach-IsValid inner_block-Reach

abbrev function_table_of_f : SymbolTable
function_table_of_f = fork false new_symbol_table

-- func(a, *b)
abbrev with_params : SymbolTable
with_params = (set_params no_builtins true ("a" ∷ "b" ∷ []) [] function_table_of_f).1

params_set :
    set_params no_builtins true ("a" ∷ "b" ∷ []) [] function_table_of_f ≡ (none, with_params)
unfolding set_params define_params_var define_params_loop is_declared if_defined store_params
    make_params mark_last add_local shadow_builtin fork next_index update_max_defs raise_max
    Dict.get Dict.put
params_set = refl

set_params-slots_example :
    Dict.get (own with_params).store "b"
    ≡ some (param_symbol "b" (next_index function_table_of_f + 1))
set_params-slots_example =
    set_params-slots no_builtins true "a" ("b" ∷ []) [] function_table_of_f with_params params_set 1
      "b" refl refl
