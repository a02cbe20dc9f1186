-- ===== src/Reactor.antt =====
-- src/reactor/mod.rs: the event loop, its table of I/O sources, and the handles to it.
pub mod State
pub mod Platform
pub mod Tokens
pub mod Dispatch
pub mod Woken
pub mod Sources
pub mod Valid
pub mod Delivery
pub mod Leaks
pub mod Refused
pub mod Turn
pub mod History
pub mod LiveTokens
pub mod Events
pub mod Waits
pub mod Wakings
pub mod World
pub mod Handle
pub mod Fallback
pub mod Registration
pub mod ShardedRwlock
