-- ===== src/Runtime/Sets.antt =====
-- The sets of src/abs.c.
pub mod Defs
pub mod Distinct
pub mod Contents
