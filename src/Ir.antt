-- ===== src/Ir.antt =====
-- compiler/: the mathematical graph, its operations and types, and the passes over it.
mod Examples
pub mod Op
pub mod Domain
pub mod MathType
pub mod Fact
pub mod Graph
pub mod Inference
pub mod Verifier
