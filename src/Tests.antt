-- ===== src/Tests.antt =====
-- Runs of the model on small inputs.
mod Instructions
mod Symbols
mod Sources
mod Arguments
mod Expressions
mod Dispatch
mod Numbers
mod Parsing
mod Handlers
