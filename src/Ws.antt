-- ===== src/Ws.antt =====
-- src/abs_ws.c: the frames of RFC 6455, and base64.
pub mod Defs
pub mod Frames
pub mod Base64
pub mod Receiving
