-- ===== src/SymbolTable.antt =====
-- symbol_table.go: the scopes of the compiler. `Symbols` and `Tables` have the data, `Define` and
-- `Resolve` the operations; the other modules prove.
pub mod Symbols
pub mod Tables
pub mod Define
pub mod Resolve
mod Entries
pub mod Validity
mod Defining
mod Resolving
pub mod Lexical
pub mod Reachable
pub mod Again
pub mod Meaning
pub mod Defined
pub mod Parameters
pub mod Slots
pub mod History
