-- ===== src/Upload.antt =====
-- The upload stage: src/gateway/upload.
pub mod Classifier
pub mod Batcher
pub mod Conversion
pub mod Json
pub mod Wire
pub mod Client
pub mod Fake
pub mod Backoff
pub mod Uploader
