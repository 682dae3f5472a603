-- ===== src/SymbolTable/Symbols.antt =====
-- symbol_table.go: symbols. A symbol of scope `free` has the symbol of the enclosing function that
-- it stands for. The source's pointers are values here: no function of symbol_table.go changes a
-- symbol once it is made.
use gad.Prelude.{String, Bool, true, false}
use gad.Prelude.Int.{ℤ}

pub data SymbolScope : Type 0 where
  scope_global scope_local scope_builtin scope_free : SymbolScope

pub record SymbolInfo : Type 0 where
  pub name : String
  pub index : ℤ
  pub scope : SymbolScope

mutual
  pub data Symbol : Type 0 where
    symbol : SymbolInfo → Bool → Bool → Original → Symbol

  pub data Original : Type 0 where
    nil : Original
    at : Symbol → Original

abbrev pub info : Symbol → SymbolInfo
info (symbol i assigned constant o) = i

abbrev pub is_constant : Symbol → Bool
is_constant (symbol i assigned constant o) = constant

abbrev pub original : Symbol → Original
original (symbol i assigned constant o) = o

-- A symbol with the zero value in every other field.
abbrev pub plain : SymbolInfo → Symbol
plain i = symbol i false false nil

unfoldable pub is_scope : SymbolScope → SymbolScope → Bool
is_scope scope_global scope_global = true
is_scope scope_local scope_local = true
is_scope scope_builtin scope_builtin = true
is_scope scope_free scope_free = true
is_scope _ _ = false

-- The definition that a chain of captures ends in.
unfoldable mutual
  pub definition : Symbol → Symbol
  definition (symbol i assigned constant o) = end_of (symbol i assigned constant nil) o

  pub end_of : Symbol → Original → Symbol
  end_of s nil = s
  end_of s (at o) = definition o
