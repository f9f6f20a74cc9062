-- ===== src/Domain.antt =====
-- app/domain: the events of the log, the node snapshot and the reducer.
pub mod Schemas
pub mod Reducers
pub mod Validity
pub mod Lifecycle
pub mod Replay
