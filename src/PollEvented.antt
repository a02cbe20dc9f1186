-- ===== src/PollEvented.antt =====
-- src/raw/poll_evented.rs: an I/O object with the readiness that it has seen and its registration.
pub mod State
pub mod Ready
pub mod Io
pub mod Delegate
pub mod Match
pub mod Blocking
pub mod Lifetime
pub mod Attached
pub mod Contract
pub mod Settling
pub mod Polls
pub mod Turns
pub mod Operations
pub mod FirstUse
