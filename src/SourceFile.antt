-- ===== src/SourceFile.antt =====
-- parser/source_file.go: the files of a source set, their line tables, and positions.
pub mod Search
pub mod File
pub mod FileSet
pub mod Lines
pub mod Positions
pub mod Lookup
pub mod Sets
