-- ===== src/Runtime/Events.antt =====
-- src/abs_events.c
pub mod Defs
pub mod Order
