-- ===== src/Tests.antt =====
-- The theorems applied to concrete inputs.
pub mod Data
mod Maps
mod Server
mod Client
mod Messages
mod Polling
mod Items
mod Startup
