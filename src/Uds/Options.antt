-- ===== src/Uds/Options.antt =====
-- src/uds/stream.rs: the methods that only pass a call of the socket on.
use romio.Base.{Option, IoError, IoResult}
use romio.Deps.{Deps}
use romio.Deps.Options.{RawFd, UnixSocketApi, Shutdown}
use romio.PollEvented.State.{◌>>=◌, get_ref, returns, PollEvented, Run}
use romio.PollEvented.Delegate.{delegate}

module _ (d : Deps) (o : UnixSocketApi d.Os d.Source d.UnixAddr) where
  unfoldable pub local_addr : Run (PollEvented d) (IoResult d.UnixAddr)
  local_addr = delegate d o.local_addr

  unfoldable pub peer_addr : Run (PollEvented d) (IoResult d.UnixAddr)
  peer_addr = delegate d o.peer_addr

  unfoldable pub shutdown : Shutdown → Run (PollEvented d) (IoResult (Unit {0}))
  shutdown a = delegate d (λ io. o.shutdown io a)

  -- `impl TakeError`
  unfoldable pub take_error : Run (PollEvented d) (IoResult (Option IoError))
  take_error = delegate d d.take_error

  -- `impl AsRawFd`
  unfoldable pub as_raw_fd : Run (PollEvented d) RawFd
  as_raw_fd = do io ← get_ref d; returns (o.as_raw_fd io)
