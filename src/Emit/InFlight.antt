-- ===== src/Emit/InFlight.antt =====
-- emit/inflight.go: the tracker of in-flight money, one call at a time.
pub mod Store
pub mod Calls
pub mod Bound
pub mod Tracked
pub mod Publish
pub mod Threads
mod Tests
