-- ===== src/Upload/Uploader.antt =====
-- The uploader: src/gateway/upload/uploader.py. The configuration, the upload client and tenacity are
-- arguments; so is what the clock shows at each retry. Log lines are left out.
mod Defs
mod Cycle
pub mod Fates
pub mod Counts
pub mod Settled
pub mod Answered
pub mod RowCeiling
unfoldable pub use Defs.*
unfoldable pub use Cycle.*
