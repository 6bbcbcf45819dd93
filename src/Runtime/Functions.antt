-- ===== src/Runtime/Functions.antt =====
-- src/abs_func.c
pub mod Defs
pub mod Memo
