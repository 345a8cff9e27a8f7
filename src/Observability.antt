-- ===== src/Observability.antt =====
-- Log redaction: src/gateway/observability/logging.py. The set-up of structlog is left out.
pub mod Regex
pub mod Redaction
