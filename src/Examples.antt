-- ===== src/Examples.antt =====
-- Concrete inputs, and what the theorems say of them.
mod Data
mod Retrying
mod Ledgers
mod Processing
mod Platform
mod Webhooks
mod LogLines
mod Demo
mod Uploads
mod Parts
mod Requests
mod Operator
