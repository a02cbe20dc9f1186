-- ===== src/Tcp.antt =====
-- src/tcp: TCP streams and listeners over `PollEvented`.
pub mod Stream
pub mod Listener
pub mod Connect
pub mod Options
pub mod ListenerOptions
