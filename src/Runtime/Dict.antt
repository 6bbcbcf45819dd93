-- ===== src/Runtime/Dict.antt =====
-- The dictionaries of src/abs.c: chains of nodes in buckets.
pub mod Defs
pub mod Laws
pub mod Storing
