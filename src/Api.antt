-- ===== src/Api.antt =====
-- app/api: the HTTP handlers and what stands in front of them.
pub mod Commands
pub mod Dependencies
pub mod Middleware
pub mod Projections
pub mod Telemetry
pub mod App
