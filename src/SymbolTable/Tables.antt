-- ===== src/SymbolTable/Tables.antt =====
-- symbol_table.go: the scopes of the compiler. A `SymbolTable` is a table with the tables round it,
-- the way the source links them by `parent`: `root` has no parent, and is never a block, since
-- `NewSymbolTable` makes it; `inner block t p` was made by `Fork(block)` of `p`. The functions
-- return the whole chain, in which they may have changed outer tables too.
-- `Builtins` stands for `st.builtins.Map` and for the keys of the global `BuiltinsMap`.
use gad.Prelude.{
  String, ℕ, ◌+◌, Bool, false, not, ◌&&◌, Option, none, some, List, [], ltb, if◌then◌else◌,
}
use gad.SymbolTable.Symbols.{SymbolInfo, Symbol}

pub record Builtins : Type 0 where
  pub index : String → Option ℕ
  pub has_name : String → Bool

-- A positional parameter: its type is a list of names of types.
pub record Param : Type 0 where
  pub name : String
  pub type : List SymbolInfo
  pub is_var : Bool

-- A named parameter; `value` is the script of its default value.
pub record NamedParam : Type 0 where
  pub name : String
  pub value : String

pub record Table : Type 0 where
  pub max_definition : ℕ
  pub num_definition : ℕ
  pub params : List Param
  pub named_params : List NamedParam
  pub store : List (String × Symbol)
  pub disabled_builtins : List String
  pub frees : List Symbol
  pub disable_params : Bool
  pub shadowed_builtins : List String

pub data SymbolTable : Type 0 where
  root : Table → SymbolTable
  inner : Bool → Table → SymbolTable → SymbolTable

abbrev pub empty_table : Table
empty_table = record {
  max_definition = 0;
  num_definition = 0;
  params = [];
  named_params = [];
  store = [];
  disabled_builtins = [];
  frees = [];
  disable_params = false;
  shadowed_builtins = [];
}

abbrev pub new_symbol_table : SymbolTable
new_symbol_table = root empty_table

-- The fields of the innermost table, `*st`.
abbrev pub own : SymbolTable → Table
own (root t) = t
own (inner block t p) = t

abbrev pub with_own : SymbolTable → Table → SymbolTable
with_own (root t) t' = root t'
with_own (inner block t p) t' = inner block t' p

unfoldable pub fork : Bool → SymbolTable → SymbolTable
fork block st = inner block (record empty_table { disable_params = (own st).disable_params }) st

unfoldable pub parent : Bool → SymbolTable → Option SymbolTable
parent skip_block (root t) = none
parent skip_block (inner block t p) =
    let outer = parent skip_block p in if skip_block && block then outer else some p

unfoldable pub in_block : SymbolTable → Bool
in_block (root t) = false
in_block (inner block t p) = block

unfoldable pub enable_params : Bool → SymbolTable → SymbolTable
enable_params v st = with_own st (record (own st) { disable_params = not v })

unfoldable pub next_index : SymbolTable → ℕ
next_index (root t) = t.num_definition
next_index (inner block t p) = if block then next_index p + t.num_definition else t.num_definition

unfoldable pub raise_max : ℕ → Table → Table
raise_max num_defs t =
    if ltb t.max_definition num_defs then record t { max_definition = num_defs } else t

unfoldable pub update_max_defs : ℕ → SymbolTable → SymbolTable
unfolding raise_max
update_max_defs num_defs (root t) = root (raise_max num_defs t)
update_max_defs num_defs (inner block t p) =
    inner block (raise_max num_defs t) (if block then update_max_defs num_defs p else p)
