-- ===== src/Hashmap.antt =====
-- src/abs_hashmap.c: an open-addressing hash map with linear probing and tombstones.
--
-- The three parallel arrays are one list of slots. The keys and values of a slot that is not occupied
-- are NULL in the code and are never read, so only `occupied` holds them. A value is a pointer, and
-- `none` is NULL. The calls of `free_value` are logged in `freed`.
pub mod Defs
pub mod Slots
pub mod Probe
pub mod Place
pub mod Invariant
pub mod Insert
pub mod Resize
pub mod Methods
pub mod Refinement
