-- ===== src/Exceptions.antt =====
-- try, catch, end_try and throw of include/abscom/abs.h and src/abs_except.c.
pub mod Defs
pub mod Structured
pub mod Unwinding
pub mod Rethrow
