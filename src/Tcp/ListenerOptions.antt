-- ===== src/Tcp/ListenerOptions.antt =====
-- src/tcp/listener.rs: the methods that only pass a call of the socket on.
use romio.Base.{ℕ, IoResult}
use romio.Deps.{Deps}
use romio.Deps.Options.{RawFd, TcpListenerApi}
use romio.Reactor.World.{World}
use romio.PollEvented.State.{◌>>=◌, get_ref, returns, PollEvented, Run, evented_from}
use romio.PollEvented.Delegate.{delegate}

module _ (d : Deps) (o : TcpListenerApi d.Os d.Source d.Addr d.StdSocket) where
  unfoldable pub local_addr : Run (PollEvented d) (IoResult d.Addr)
  local_addr = delegate d o.local_addr

  unfoldable pub ttl : Run (PollEvented d) (IoResult ℕ)
  ttl = delegate d o.ttl

  unfoldable pub set_ttl : ℕ → Run (PollEvented d) (IoResult (Unit {0}))
  set_ttl a = delegate d (λ io. o.set_ttl io a)

  -- `TryFrom` for a socket of the standard library
  unfoldable pub from_std : d.StdSocket → World d → IoResult (PollEvented d) × World d
  from_std socket w = evented_from d (o.from_std socket) w

  -- `impl AsRawFd`
  unfoldable pub as_raw_fd : Run (PollEvented d) RawFd
  as_raw_fd = do io ← get_ref d; returns (o.as_raw_fd io)
