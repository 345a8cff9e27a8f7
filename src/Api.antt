-- ===== src/Api.antt =====
-- The HTTP API: src/gateway/api. FastAPI's dispatch is left out, and pydantic's
-- validation is a parameter.
pub mod Signature
pub mod Authentic
pub mod Ingest
pub mod Schemas
pub mod Calendar
pub mod Mappers
pub mod Routes
pub mod Gate
pub mod Mapped
pub mod Durable
