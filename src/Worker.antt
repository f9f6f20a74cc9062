-- ===== src/Worker.antt =====
-- app/worker
pub mod Outbox
pub mod Reconciler
pub mod Processing
pub mod Followups
pub mod Guardrail
pub mod Records
pub mod Batch
pub mod Loop
pub mod Projection
