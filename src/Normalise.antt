-- ===== src/Normalise.antt =====
-- Normalisation and hashing of identifiers: src/gateway/normalise.
pub mod Libs
pub mod Strings
pub mod Fields
pub mod Identifiers
pub mod Mailbox
pub mod MatchKey
