-- ===== src/Store.antt =====
-- crates/lens-store/src/lib.rs: the bounded in-memory store of flows, with a single writer.
pub mod Table
pub mod Flow
pub mod Json
pub mod Decoders
pub mod Messages
pub mod Actor
pub mod Frame
pub mod Newest
pub mod Retention
pub mod Shown
pub mod Contents
mod Held
pub mod Private
pub mod Ending
pub mod Quiet
pub mod ReadJson
pub mod ServiceMap
pub mod Counts
pub mod Latency
mod Tests
mod Examples
