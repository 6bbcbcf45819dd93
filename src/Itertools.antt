-- ===== src/Itertools.antt =====
-- src/abs_itertools.c: iterators that hold their sources.
pub mod Defs
pub mod Streams
