-- ===== src/Replay.antt =====
-- crates/lens-replay/src/lib.rs: what of a capture is sent again, and under which conditions.
pub mod Packages
pub mod Wire
pub mod Guard
pub mod Plan
pub mod Targets
pub mod Permitted
pub mod Kept
mod Tests
mod Examples
