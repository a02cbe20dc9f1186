-- ===== src/Uds/Listener.antt =====
-- src/uds/listener.rs: `UnixListener`, which is its `PollEvented`.
use romio.Base.{
  ℕ, Option, none, some, Waker, Poll, ready, pending, IoResult, ok, err, if◌then◌else◌,
}
use romio.Deps.{Deps}
use romio.Reactor.Platform.{Platform}
use romio.Reactor.World.{World}
use romio.Reactor.Registration.Poll.{Others}
use romio.PollEvented.State.{PollEvented, Run, returns, ◌>>=◌, get_ref, on_os, evented_from}
use romio.PollEvented.Ready.{poll_read_ready}
use romio.PollEvented.Match.{block}
use romio.PollEvented.Io.{is_block}
use romio.Reactor.State.{read}

module _ (d : Deps) where
  -- `UnixListener::bind`
  unfoldable pub bind : d.FilePath → World d → IoResult (PollEvented d) × World d
  bind path w = evented_from d (d.unix_bind path) w

module _ (d : Deps) (p : Platform) where
  -- The `match` of `poll_accept_std`
  unfoldable pub accepts :
      ℕ
      → Others d
      → Waker
      → IoResult (Option (d.StdSocket × d.UnixAddr))
      → Run (PollEvented d) (Poll (IoResult (d.StdSocket × d.UnixAddr)))
  accepts fuel others waker (ok (some accepted)) = returns (ready (ok accepted))
  accepts fuel others waker (ok none) = block d p fuel others waker read
  accepts fuel others waker (err e) =
      if is_block e.kind then block d p fuel others waker read else returns (ready (err e))

  unfoldable pub poll_accept_std :
      ℕ → Others d → Waker → Run (PollEvented d) (Poll (IoResult (d.StdSocket × d.UnixAddr)))
  poll_accept_std fuel others waker = do
    res ← poll_read_ready d p fuel others waker
    elim res [
      | pending ↦ returns pending
      | ready (err e) ↦ returns (ready (err e))
      | ready (ok _) ↦ do
        io ← get_ref d
        r ← on_os d (d.unix_accept_std io)
        accepts fuel others waker r
    ]

  -- `poll_ready`, with the mio stream that `UnixStream::new` wraps
  unfoldable pub poll_ready :
      ℕ → Others d → Waker → Run (PollEvented d) (Poll (IoResult (d.Source × d.UnixAddr)))
  poll_ready fuel others waker = do
    accepted ← poll_accept_std fuel others waker
    elim accepted [
      | pending ↦ returns pending
      | ready (err e) ↦ returns (ready (err e))
      | ready (ok (io, addr)) ↦ do
        res ← on_os d (d.unix_from_stream io)
        elim res [
          | ok stream ↦ returns (ready (ok (stream, addr)))
          | err e ↦ returns (ready (err e))
        ]
    ]

  -- `impl Stream for Incoming`: it never ends.
  unfoldable pub poll_next :
      ℕ → Others d → Waker → Run (PollEvented d) (Poll (Option (IoResult d.Source)))
  poll_next fuel others waker = do
    accepted ← poll_ready fuel others waker
    elim accepted [
      | pending ↦ returns pending
      | ready (err e) ↦ returns (ready (some (err e)))
      | ready (ok (stream, addr)) ↦ returns (ready (some (ok stream)))
    ]
