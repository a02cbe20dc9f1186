-- ===== src/Tcp/Options.antt =====
-- src/tcp/stream.rs: the methods that only pass a call of the socket on.
use romio.Base.{ℕ, Bool, Option, IoResult}
use romio.Deps.{Deps}
use romio.Deps.Options.{RawFd, TcpStreamApi, Shutdown, Duration}
use romio.PollEvented.State.{◌>>=◌, get_ref, returns, PollEvented, Run}
use romio.PollEvented.Delegate.{delegate}

module _ (d : Deps) (o : TcpStreamApi d.Os d.Source d.Addr) where
  unfoldable pub local_addr : Run (PollEvented d) (IoResult d.Addr)
  local_addr = delegate d o.local_addr

  unfoldable pub peer_addr : Run (PollEvented d) (IoResult d.Addr)
  peer_addr = delegate d o.peer_addr

  unfoldable pub shutdown : Shutdown → Run (PollEvented d) (IoResult (Unit {0}))
  shutdown a = delegate d (λ io. o.shutdown io a)

  unfoldable pub nodelay : Run (PollEvented d) (IoResult Bool)
  nodelay = delegate d o.nodelay

  unfoldable pub set_nodelay : Bool → Run (PollEvented d) (IoResult (Unit {0}))
  set_nodelay a = delegate d (λ io. o.set_nodelay io a)

  unfoldable pub recv_buffer_size : Run (PollEvented d) (IoResult ℕ)
  recv_buffer_size = delegate d o.recv_buffer_size

  unfoldable pub set_recv_buffer_size : ℕ → Run (PollEvented d) (IoResult (Unit {0}))
  set_recv_buffer_size a = delegate d (λ io. o.set_recv_buffer_size io a)

  unfoldable pub send_buffer_size : Run (PollEvented d) (IoResult ℕ)
  send_buffer_size = delegate d o.send_buffer_size

  unfoldable pub set_send_buffer_size : ℕ → Run (PollEvented d) (IoResult (Unit {0}))
  set_send_buffer_size a = delegate d (λ io. o.set_send_buffer_size io a)

  unfoldable pub keepalive : Run (PollEvented d) (IoResult (Option Duration))
  keepalive = delegate d o.keepalive

  unfoldable pub set_keepalive : Option Duration → Run (PollEvented d) (IoResult (Unit {0}))
  set_keepalive a = delegate d (λ io. o.set_keepalive io a)

  unfoldable pub ttl : Run (PollEvented d) (IoResult ℕ)
  ttl = delegate d o.ttl

  unfoldable pub set_ttl : ℕ → Run (PollEvented d) (IoResult (Unit {0}))
  set_ttl a = delegate d (λ io. o.set_ttl io a)

  unfoldable pub linger : Run (PollEvented d) (IoResult (Option Duration))
  linger = delegate d o.linger

  unfoldable pub set_linger : Option Duration → Run (PollEvented d) (IoResult (Unit {0}))
  set_linger a = delegate d (λ io. o.set_linger io a)

  -- `impl AsRawFd`
  unfoldable pub as_raw_fd : Run (PollEvented d) RawFd
  as_raw_fd = do io ← get_ref d; returns (o.as_raw_fd io)
