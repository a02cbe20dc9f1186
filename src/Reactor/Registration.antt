-- ===== src/Reactor/Registration.antt =====
-- src/reactor/registration.rs: an I/O object's tie to a reactor, made on first use.
pub mod State
pub mod Source
pub mod Flags
pub mod Streams
pub mod Abstract
pub mod Wakeup
pub mod Poll
pub mod Rounds
pub mod Waiters
pub mod Dangling
pub mod First
pub mod Interference
pub mod Disturbed
