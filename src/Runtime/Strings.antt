-- ===== src/Runtime/Strings.antt =====
-- The operations of src/abs.c on texts.
pub mod Defs
pub mod Places
pub mod Splitting
