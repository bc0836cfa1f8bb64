-- ===== src/Http1.antt =====
-- crates/lens-proto-http1/src/lib.rs: the HTTP/1 decoder.
pub mod Head
pub mod Body
pub mod Decoder
pub mod Limits
pub mod Steps
pub mod Bounded
pub mod Length
pub mod Lines
mod Tests
mod Examples
