-- ===== src/Models.antt =====
-- The data model: src/gateway/models.
pub mod Status
pub mod Payload
pub mod Rows
pub mod Message
pub mod Canonical
pub mod Columns
