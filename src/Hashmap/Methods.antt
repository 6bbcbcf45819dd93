-- ===== src/Hashmap/Methods.antt =====
-- The exported functions of the map against its abstract view.
pub mod Find
pub mod Grow
pub mod Put
pub mod Rest
