-- ===== src/Examples.antt =====
-- A concrete instance of the interfaces, and the theorems at concrete inputs.
mod Slots
mod Model
mod Wakeups
mod Tables
mod Registrations
mod Fallbacks
mod Polls
mod Turns
mod Backgrounds
mod Sockets
mod Locks
