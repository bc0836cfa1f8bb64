-- ===== src/Redact.antt =====
-- crates/lens-redact/src/lib.rs: what is hidden of a message before it is stored.
pub mod Names
pub mod Pairs
pub mod Sql
pub mod Redis
pub mod Redactor
pub mod Unchanged
pub mod Hidden
pub mod Commands
pub mod Form
pub mod SqlItems
pub mod SqlQuotes
pub mod SqlTokens
pub mod SqlShown
pub mod Tests
mod Examples
