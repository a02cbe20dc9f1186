-- ===== src/Deps/Options.antt =====
-- The options of mio's sockets: calls that may fail. Nothing is assumed of them.
use romio.Base.{ℕ, Bool, Option, IoResult}

-- `std::net::Shutdown`, and `Duration` in nanoseconds
pub data Shutdown : Type 0 where
  read write both : Shutdown

abbrev pub Duration : Type 0
Duration = ℕ

-- `std::os::unix::io::RawFd`, a descriptor that is open
abbrev pub RawFd : Type 0
RawFd = ℕ

-- `mio::net::TcpStream`
pub record TcpStreamApi (Os Source Addr : Type 0) : Type 0 where
  pub as_raw_fd : Source → RawFd
  pub local_addr : Source → Os → IoResult Addr × Os
  pub peer_addr : Source → Os → IoResult Addr × Os
  pub shutdown : Source → Shutdown → Os → IoResult (Unit {0}) × Os
  pub nodelay : Source → Os → IoResult Bool × Os
  pub set_nodelay : Source → Bool → Os → IoResult (Unit {0}) × Os
  pub recv_buffer_size : Source → Os → IoResult ℕ × Os
  pub set_recv_buffer_size : Source → ℕ → Os → IoResult (Unit {0}) × Os
  pub send_buffer_size : Source → Os → IoResult ℕ × Os
  pub set_send_buffer_size : Source → ℕ → Os → IoResult (Unit {0}) × Os
  pub keepalive : Source → Os → IoResult (Option Duration) × Os
  pub set_keepalive : Source → Option Duration → Os → IoResult (Unit {0}) × Os
  pub ttl : Source → Os → IoResult ℕ × Os
  pub set_ttl : Source → ℕ → Os → IoResult (Unit {0}) × Os
  pub linger : Source → Os → IoResult (Option Duration) × Os
  pub set_linger : Source → Option Duration → Os → IoResult (Unit {0}) × Os

-- `mio::net::TcpListener`; `Std` is the socket of the standard library that it is made from
pub record TcpListenerApi (Os Source Addr Std : Type 0) : Type 0 where
  pub as_raw_fd : Source → RawFd
  pub from_std : Std → Os → IoResult Source × Os
  pub local_addr : Source → Os → IoResult Addr × Os
  pub ttl : Source → Os → IoResult ℕ × Os
  pub set_ttl : Source → ℕ → Os → IoResult (Unit {0}) × Os

-- `mio::net::UdpSocket`
pub record UdpApi (Os Source Addr Std Ipv4Addr Ipv6Addr : Type 0) : Type 0 where
  pub as_raw_fd : Source → RawFd
  pub from_socket : Std → Os → IoResult Source × Os
  pub local_addr : Source → Os → IoResult Addr × Os
  pub broadcast : Source → Os → IoResult Bool × Os
  pub set_broadcast : Source → Bool → Os → IoResult (Unit {0}) × Os
  pub multicast_loop_v4 : Source → Os → IoResult Bool × Os
  pub set_multicast_loop_v4 : Source → Bool → Os → IoResult (Unit {0}) × Os
  pub multicast_ttl_v4 : Source → Os → IoResult ℕ × Os
  pub set_multicast_ttl_v4 : Source → ℕ → Os → IoResult (Unit {0}) × Os
  pub multicast_loop_v6 : Source → Os → IoResult Bool × Os
  pub set_multicast_loop_v6 : Source → Bool → Os → IoResult (Unit {0}) × Os
  pub ttl : Source → Os → IoResult ℕ × Os
  pub set_ttl : Source → ℕ → Os → IoResult (Unit {0}) × Os
  pub join_multicast_v4 : Source → Ipv4Addr → Ipv4Addr → Os → IoResult (Unit {0}) × Os
  pub join_multicast_v6 : Source → Ipv6Addr → ℕ → Os → IoResult (Unit {0}) × Os
  pub leave_multicast_v4 : Source → Ipv4Addr → Ipv4Addr → Os → IoResult (Unit {0}) × Os
  pub leave_multicast_v6 : Source → Ipv6Addr → ℕ → Os → IoResult (Unit {0}) × Os

-- `mio_uds::UnixStream` and `mio_uds::UnixDatagram`
pub record UnixSocketApi (Os Source Addr : Type 0) : Type 0 where
  pub as_raw_fd : Source → RawFd
  pub local_addr : Source → Os → IoResult Addr × Os
  pub peer_addr : Source → Os → IoResult Addr × Os
  pub shutdown : Source → Shutdown → Os → IoResult (Unit {0}) × Os

-- `mio_uds::UnixListener`
pub record UnixListenerApi (Os Source Addr Std : Type 0) : Type 0 where
  pub as_raw_fd : Source → RawFd
  pub from_listener : Std → Os → IoResult Source × Os
  pub local_addr : Source → Os → IoResult Addr × Os
