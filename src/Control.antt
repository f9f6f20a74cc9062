-- ===== src/Control.antt =====
-- app/control
pub mod MautRollback
pub mod PidGuardrail
pub mod Backpressure
