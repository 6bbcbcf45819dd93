-- ===== src/Runtime/Json.antt =====
-- The JSON reader and printer of src/abs.c.
pub mod Defs
pub mod Parse
pub mod Dump
pub mod Strings
pub mod Numbers
pub mod Plain
pub mod Steps
pub mod Reading
pub mod Lengths
pub mod Ends
pub mod Total
pub mod RoundTrip
pub mod Longs
