-- ===== src/Core.antt =====
-- compiler/include/mlk/core/: the containers of the compiler.
mod Examples
pub mod SymbolTable
pub mod SparseSet
