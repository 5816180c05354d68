-- ===== src/Poly.antt =====
-- polyhedral/: the exact integer engine. One child for each part of the library.
pub mod Checked
pub mod Rational
pub mod Row
pub mod System
pub mod Affine
pub mod Fm
pub mod Feasibility
pub mod IntSet
pub mod AffineBox
pub mod AffineMap
pub mod Lex
mod Examples
