-- ===== src/Runtime/Values.antt =====
-- The values of src/abs.c and what is read from them.
pub mod Defs
pub mod Text
pub mod Arith
pub mod Repeating
