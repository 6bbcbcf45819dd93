-- ===== src/Runtime.antt =====
-- src/abs.c: the dynamic values and the operations on them.
pub mod Dict
pub mod Values
pub mod Json
pub mod Sets
pub mod Strings
pub mod Lists
pub mod Events
pub mod Functions
