-- ===== src/Auth.antt =====
-- crates/rd-engine/src/authentication.rs: who may control this host, and with which permissions.
pub mod Credentials
pub mod Types
pub mod Machine
pub mod Outcomes
pub mod Invariant
pub mod Moves
pub mod Evidence
pub mod Decisions
pub mod Tests
