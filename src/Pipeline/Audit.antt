-- ===== src/Pipeline/Audit.antt =====
-- The audit trail under the transactions of the pipeline.
mod Ingesting
mod Processing
mod Uploading
pub use Ingesting.*
pub use Processing.*
pub use Uploading.*
