-- ===== src/Core.antt =====
-- crates/lens-core/src/lib.rs: identifiers, the event envelope, flow and message records, the
-- observations that the proxy sends to the store, errors and clocks.
mod Event
mod Flow
mod Session
mod Failure
mod Clock
unfoldable pub use Event.*
unfoldable pub use Flow.*
unfoldable pub use Session.*
unfoldable pub use Failure.*
unfoldable pub use Clock.*
