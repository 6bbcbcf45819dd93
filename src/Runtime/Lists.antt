-- ===== src/Runtime/Lists.antt =====
-- The operations of src/abs.c on lists.
pub mod Defs
pub mod Testing
pub mod Contents
pub mod Ranges
