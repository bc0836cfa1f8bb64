-- ===== src/Postgres.antt =====
-- crates/lens-proto-postgres/src/lib.rs: the decoder of the PostgreSQL protocol.
pub mod Wire
pub mod Strings
pub mod Message
pub mod Backend
pub mod Decoder
pub mod Steps
pub mod Rounds
pub mod Fragments
pub mod Joined
pub mod Whole
pub mod Bounded
pub mod Ending
pub mod Bodies
pub mod Frames
pub mod Secret
mod Tests
mod Examples
