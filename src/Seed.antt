-- ===== src/Seed.antt =====
-- The demo traffic: src/gateway/seed.py. The HTTP client is a parameter, over a state of its own,
-- and so are `json.dumps` and the clock. The wait for terminal states runs for as many rounds as
-- the deadline leaves; what is printed is left out.
pub mod Landed
mod Payloads
mod Run
unfoldable pub use Payloads.*
unfoldable pub use Run.*
