-- ===== src/Regex.antt =====
-- src/abs_regex.c: a matcher for patterns with `.`, `*`, `^` and `$`.
pub mod Defs
pub mod Matching
pub mod Longest
pub mod Search
pub mod Finding
