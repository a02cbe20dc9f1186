-- ===== src/Background.antt =====
-- src/reactor/background.rs: a reactor on a thread of its own, and its shutdown.
pub mod State
pub mod Thread
pub mod Machine
pub mod Stops
pub mod Stages
pub mod Invariant
pub mod Shutdown
pub mod Liveness
pub mod Handle
pub mod Blocked
pub mod Joined
