-- ===== src/Uds/Stream.antt =====
-- src/uds/stream.rs: `UnixStream`, which is its `PollEvented`, and the future of a connection.
use romio.Base.{
  ℕ, Option, none, some, List, Waker, Poll, ready, pending, IoResult, ok, err, IoError, Outcome,
  done, panics,
}
use romio.Deps.{Deps}
use romio.Reactor.Platform.{Platform}
use romio.Reactor.World.{World}
use romio.Reactor.Registration.Poll.{Others}
use romio.PollEvented.State.{PollEvented, Run, ◌>>=◌, get_ref, on_os, evented_from}
use romio.PollEvented.Io.{drop_evented, poll_op}
use romio.PollEvented.Io as Evented
use romio.PollEvented.Ready as Readiness

-- `ConnectFuture`, with the world around it: the stream's cell holds it while the future waits.
pub data ConnectFuture (d : Deps) : Type 0 where
  waiting : PollEvented d → ConnectFuture d
  failed : IoError → World d → ConnectFuture d
  empty : World d → ConnectFuture d

module _ (d : Deps) where
  -- `stream.io.get_ref().take_error()`
  unfoldable pub take_error : Run (PollEvented d) (IoResult (Option IoError))
  take_error = do io ← get_ref d; on_os d (d.take_error io)

  -- `UnixStream::connect`
  unfoldable pub connect : d.FilePath → World d → ConnectFuture d
  connect path w =
      let (res, w') = evented_from d (d.unix_connect path) w in
      elim res [ ok stream ↦ waiting stream | err e ↦ failed e w' ]

  -- `UnixStream::pair`, with the two mio streams that `UnixStream::new` wraps
  unfoldable pub pair : World d → IoResult (d.Source × d.Source) × World d
  pair w = let (res, os') = d.unix_pair w.os in (res, record w { os = os' })

  -- What follows `ready!(..)`: an error leaves the stream in the future.
  unfoldable pub connected :
      PollEvented d → Option (Outcome (Poll (IoResult (PollEvented d)) × ConnectFuture d))
  connected stream = elim (take_error stream) [
    | none ↦ none
    | some panics ↦ some panics
    | some (done (err e, s)) ↦ some (done (ready (err e), waiting s))
    | some (done (ok (some e), s)) ↦ some (done (ready (err e), waiting s))
    | some (done (ok none, s)) ↦ some (done (ready (ok s), empty s.cell.world))
  ]

module _ (d : Deps) (p : Platform) where
  -- `impl Future for ConnectFuture`
  unfoldable pub poll_connect :
      ℕ
      → Others d
      → Waker
      → ConnectFuture d
      → Option (Outcome (Poll (IoResult (PollEvented d)) × ConnectFuture d))
  poll_connect fuel others waker (waiting stream) =
      elim (Readiness.poll_write_ready d p fuel others waker stream) [
        | none ↦ none
        | some panics ↦ some panics
        | some (done (pending, s)) ↦ some (done (pending, waiting s))
        | some (done (ready (err e), s)) ↦ some (done (ready (err e), waiting s))
        | some (done (ready (ok _), s)) ↦ connected d s
      ]
  poll_connect fuel others waker (failed e w) = some (done (ready (err e), empty w))
  poll_connect fuel others waker (empty w) = some panics

  -- `impl AsyncRead`, `AsyncWrite`, `AsyncReadReady` and `AsyncWriteReady`: the methods of `PollEvented`.
  unfoldable pub poll_read :
      ℕ → Others d → Waker → ℕ → Run (PollEvented d) (Poll (IoResult (List ℕ)))
  poll_read fuel others waker buf = Evented.poll_read d p fuel others waker buf

  unfoldable pub poll_write :
      ℕ → Others d → Waker → List ℕ → Run (PollEvented d) (Poll (IoResult ℕ))
  poll_write fuel others waker buf = Evented.poll_write d p fuel others waker buf

  unfoldable pub poll_flush :
      ℕ → Others d → Waker → Run (PollEvented d) (Poll (IoResult (Unit {0})))
  poll_flush fuel others waker = Evented.poll_flush d p fuel others waker

  unfoldable pub poll_close : Run (PollEvented d) (Poll (IoResult (Unit {0})))
  poll_close = Evented.poll_close d p

  unfoldable pub poll_read_ready :
      ℕ → Others d → Waker → Run (PollEvented d) (Poll (IoResult d.Ready))
  poll_read_ready fuel others waker = Readiness.poll_read_ready d p fuel others waker

  unfoldable pub poll_write_ready :
      ℕ → Others d → Waker → Run (PollEvented d) (Poll (IoResult d.Ready))
  poll_write_ready fuel others waker = Readiness.poll_write_ready d p fuel others waker
