-- ===== src/Deps/Sockets.antt =====
-- The sockets of mio and mio-uds: calls that do not block and may fail. Nothing is assumed of them.
-- A buffer to read into is its length, and what was read a list of bytes.
use romio.Base.{ℕ, Option, List, IoResult, IoError}

pub record SocketApi (Os Source : Type 0) : Type 1 where
  -- `SocketAddr` of std::net, that of std::os::unix::net, and `Path`
  pub Addr : Type 0
  pub UnixAddr : Type 0
  pub FilePath : Type 0
  -- A socket of the standard library, not yet one of mio.
  pub StdSocket : Type 0
  pub read : Source → ℕ → Os → IoResult (List ℕ) × Os
  pub write : Source → List ℕ → Os → IoResult ℕ × Os
  pub flush : Source → Os → IoResult (Unit {0}) × Os
  pub take_error : Source → Os → IoResult (Option IoError) × Os
  pub tcp_connect : Addr → Os → IoResult Source × Os
  pub tcp_bind : Addr → Os → IoResult Source × Os
  pub tcp_accept_std : Source → Os → IoResult (StdSocket × Addr) × Os
  pub tcp_from_stream : StdSocket → Os → IoResult Source × Os
  pub udp_bind : Addr → Os → IoResult Source × Os
  pub send_to : Source → List ℕ → Addr → Os → IoResult ℕ × Os
  pub recv_from : Source → ℕ → Os → IoResult (List ℕ × Addr) × Os
  pub unix_connect : FilePath → Os → IoResult Source × Os
  pub unix_bind : FilePath → Os → IoResult Source × Os
  pub unix_pair : Os → IoResult (Source × Source) × Os
  pub unix_accept_std : Source → Os → IoResult (Option (StdSocket × UnixAddr)) × Os
  pub unix_from_stream : StdSocket → Os → IoResult Source × Os
  pub datagram_bind : FilePath → Os → IoResult Source × Os
  pub datagram_pair : Os → IoResult (Source × Source) × Os
  pub datagram_unbound : Os → IoResult Source × Os
  pub datagram_send_to : Source → List ℕ → FilePath → Os → IoResult ℕ × Os
  pub datagram_recv_from : Source → ℕ → Os → IoResult (List ℕ × UnixAddr) × Os
