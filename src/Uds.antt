-- ===== src/Uds.antt =====
-- src/uds: Unix domain sockets over `PollEvented`.
pub mod Stream
pub mod Listener
pub mod Datagram
pub mod Connect
pub mod Options
pub mod ListenerOptions
pub mod DatagramOptions
pub mod Credentials
pub mod PeerCred
