-- ===== src/GrowString.antt =====
-- src/abs_string.c: a growable string.
pub mod Defs
pub mod Growth
pub mod Contents
pub mod Uninitialised
