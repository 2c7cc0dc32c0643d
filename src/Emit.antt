-- ===== src/Emit.antt =====
-- Package emit: the write side. The in-flight tracker.
pub mod InFlight
pub mod Emitter
