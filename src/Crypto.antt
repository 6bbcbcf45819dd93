-- ===== src/Crypto.antt =====
-- src/abs_crypto.c: SHA-256 and HMAC-SHA-256.
pub mod Transform
pub mod Defs
pub mod Padding
pub mod Digest
