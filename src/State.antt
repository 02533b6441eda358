-- ===== src/State.antt =====
-- crates/agentive/src/state: the serializable run state machine. `Types` has its data, `Effects`
-- and `Commits` its operations; the other modules prove what holds of them.
pub mod Types
pub mod Effects
pub mod Commits
pub mod Asks
pub mod Atomic
pub mod Budget
pub mod Once
pub mod Termination
pub mod Accepted
pub mod Frame
pub mod Identity
pub mod Terminal
pub mod Elapsed
