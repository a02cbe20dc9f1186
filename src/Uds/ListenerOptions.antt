-- ===== src/Uds/ListenerOptions.antt =====
-- src/uds/listener.rs: the methods that only pass a call of the socket on.
use romio.Base.{Option, IoError, IoResult}
use romio.Deps.{Deps}
use romio.Deps.Options.{RawFd, UnixListenerApi}
use romio.Reactor.World.{World}
use romio.PollEvented.State.{◌>>=◌, get_ref, returns, PollEvented, Run, evented_from}
use romio.PollEvented.Delegate.{delegate}

module _ (d : Deps) (o : UnixListenerApi d.Os d.Source d.UnixAddr d.StdSocket) where
  unfoldable pub local_addr : Run (PollEvented d) (IoResult d.UnixAddr)
  local_addr = delegate d o.local_addr

  -- `TryFrom` for a socket of the standard library
  unfoldable pub from_std : d.StdSocket → World d → IoResult (PollEvented d) × World d
  from_std socket w = evented_from d (o.from_listener socket) w

  -- `impl TakeError`
  unfoldable pub take_error : Run (PollEvented d) (IoResult (Option IoError))
  take_error = delegate d d.take_error

  -- `impl AsRawFd`
  unfoldable pub as_raw_fd : Run (PollEvented d) RawFd
  as_raw_fd = do io ← get_ref d; returns (o.as_raw_fd io)
