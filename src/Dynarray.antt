-- ===== src/Dynarray.antt =====
-- src/abs_dynarray.c: an array of elements of one size.
pub mod Defs
pub mod Pushing
