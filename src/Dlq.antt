-- ===== src/Dlq.antt =====
-- The dead-letter store: src/gateway/dlq/store.py.
pub mod Letters
pub mod Listed
pub mod Replayed
mod Store
mod Replay
unfoldable pub use Store.*
unfoldable pub use Replay.*
