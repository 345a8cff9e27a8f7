-- ===== src/MockAds.antt =====
-- The mock of the advertising platform: mock_ads_api/app.py.
pub mod Pattern
pub mod Validation
pub mod Injection
pub mod Server
pub mod Rows
pub mod Judged
pub mod Answers
pub mod ReadBack
pub mod RoundTrip
pub mod Codes
pub mod Formats
pub mod Digests
pub mod Accepts
pub mod Delivered
pub mod Uploaded
