-- ===== src/Reactor/Registration/Wakeup.antt =====
-- `Inner::poll_ready` of src/reactor/registration.rs against `Reactor::dispatch` of
-- src/reactor/mod.rs on one source, one shared access at a time: a task polls a direction with its
-- waker while the reactor delivers an event, and the task of the other direction polls as well.
-- Accesses are sequentially consistent here; the source also uses `Relaxed`.
pub mod Machine
pub mod Code
pub mod Frame
pub mod Invariant
pub mod Order
