-- ===== src/Redis.antt =====
-- crates/lens-proto-redis/src/lib.rs: the RESP2/RESP3 decoder.
pub mod Value
pub mod Parse
pub mod Message
pub mod Decoder
mod Tests
mod Bounds
mod Extend
mod Fragments
mod Limits
mod RoundTrip
mod Commands
mod Capture
mod Examples
