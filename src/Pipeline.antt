-- ===== src/Pipeline.antt =====
-- The program as a whole: the transactions of the three processes and of the operator, in any order.
mod Audit
mod Steps
pub mod History
mod Runs
pub mod UploaderRuns
pub mod WorkerRuns
pub mod IngestRuns
pub mod OperatorRuns
pub mod Processes
unfoldable pub use Steps.*
