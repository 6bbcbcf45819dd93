-- ===== src/Matrix.antt =====
-- Matrices: src/abs_matrix.c.
pub mod Defs
pub mod Shaping
pub mod Loops
pub mod Cells
pub mod Grid
pub mod Built
pub mod Rows
pub mod Entrywise
pub mod Shapes
pub mod Product
pub mod Copying
pub mod Stacks
pub mod Laws
pub mod StackLaws
