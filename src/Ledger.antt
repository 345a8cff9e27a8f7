-- ===== src/Ledger.antt =====
-- The ledger operations of src/gateway/ledger.py, the only code that writes the events tables. An ORM
-- object stands for its row through the session's identity map, so an operation takes the event's
-- id, reads the row as the session holds it and writes it back.
mod Table
mod Operations
mod Claim
pub mod Trail
pub mod Transitions
pub mod Ingest
pub mod Rounds
pub mod Exclusive
pub mod Claims
pub mod Audit
unfoldable pub use Table.*
unfoldable pub use Operations.*
unfoldable pub use Claim.*
