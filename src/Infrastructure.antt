-- ===== src/Infrastructure.antt =====
-- app/infrastructure: the database tables and the event repository.
pub mod Database
pub mod Repository
pub mod Adapters
