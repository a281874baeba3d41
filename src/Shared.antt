-- ===== src/Shared.antt =====
-- src/shared.rs: the state word of a channel, its retirement, and the check that every wait makes.
pub mod State
pub mod Protocol
pub mod Finish
pub mod Ready
pub mod Dropped
mod Tests
