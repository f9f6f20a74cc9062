-- ===== src/Tests.antt =====
-- Concrete inputs, and the theorems applied to them.
pub mod Fixtures
mod Log
mod Chain
mod Policy
mod Node
mod Commands
mod Queue
mod Worker
mod Migrations
mod Routes
mod Loop
mod Late
mod System
