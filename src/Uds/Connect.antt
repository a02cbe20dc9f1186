-- ===== src/Uds/Connect.antt =====
-- src/uds/stream.rs: what the future of a connection is left with.
use romio.Base.{
  ℕ, ◌≡◌, Option, none, some, arith, Waker, Poll, ready, pending, IoResult, ok, err, IoError,
  Outcome, done, panics,
}
use romio.Deps.{Deps}
use romio.Reactor.Platform.{Platform}
use romio.Reactor.Registration.Poll.{Others}
use romio.PollEvented.State.{PollEvented}
use romio.PollEvented.Ready as Readiness
use romio.Uds.Stream.{ConnectFuture, waiting, empty, take_error, connected, poll_connect}

module _ (d : Deps) where
  -- The future that goes with a result, if it was waiting before.
  abbrev Left : IoResult (PollEvented d) → ConnectFuture d → Type 0
  Left (ok stream) f = f ≡ empty stream.cell.world
  Left (err e) f = (stream : PollEvented d) × (f ≡ waiting stream)

  abbrev Leaves : Option (Outcome (Poll (IoResult (PollEvented d)) × ConnectFuture d)) → Type 0
  Leaves a =
      (r : IoResult (PollEvented d)) (f : ConnectFuture d) → a ≡ some (done (ready r, f)) → Left r f

  ok-Left :
      (s : PollEvented d) (r : IoResult (PollEvented d)) (f : ConnectFuture d)
      → ◌≡◌ {A = Option (Outcome (Poll (IoResult (PollEvented d)) × ConnectFuture d))}
          (some (done (ready (ok s), empty s.cell.world)))
          (some (done (ready r, f)))
      → Left r f
  ok-Left s (ok s') f at = ground arith
  ok-Left s (err e) f at = ground arith

  err-Left :
      (e : IoError) (s : PollEvented d) (r : IoResult (PollEvented d)) (f : ConnectFuture d)
      → ◌≡◌ {A = Option (Outcome (Poll (IoResult (PollEvented d)) × ConnectFuture d))}
          (some (done (ready (err e), waiting s)))
          (some (done (ready r, f)))
      → Left r f
  err-Left e s (ok s') f at = ground arith
  err-Left e s (err e') f at = (s, ground arith)

  checked-Leaves :
      (o : Option (Outcome (IoResult (Option IoError) × PollEvented d)))
      → Leaves (elim o [
        | none ↦ none
        | some panics ↦ some panics
        | some (done (err e, s)) ↦ some (done (ready (err e), waiting s))
        | some (done (ok (some e), s)) ↦ some (done (ready (err e), waiting s))
        | some (done (ok none, s)) ↦ some (done (ready (ok s), empty s.cell.world))
      ])
  checked-Leaves none r f at = ground arith
  checked-Leaves (some panics) r f at = ground arith
  checked-Leaves (some (done (err e, s))) r f at = err-Left e s r f at
  checked-Leaves (some (done (ok (some e), s))) r f at = err-Left e s r f at
  checked-Leaves (some (done (ok none, s))) r f at = ok-Left s r f at

  connected-Leaves : (stream : PollEvented d) → Leaves (connected d stream)
  unfolding connected
  connected-Leaves stream = checked-Leaves (take_error d stream)

  polled-Leaves :
      (o : Option (Outcome (Poll (IoResult d.Ready) × PollEvented d)))
      → Leaves (elim o [
        | none ↦ none
        | some panics ↦ some panics
        | some (done (pending, s)) ↦ some (done (pending, waiting s))
        | some (done (ready (err e), s)) ↦ some (done (ready (err e), waiting s))
        | some (done (ready (ok _), s)) ↦ connected d s
      ])
  polled-Leaves none r f at = ground arith
  polled-Leaves (some panics) r f at = ground arith
  polled-Leaves (some (done (pending, s))) r f at = ground arith
  polled-Leaves (some (done (ready (err e), s))) r f at = err-Left e s r f at
  polled-Leaves (some (done (ready (ok x), s))) r f at = connected-Leaves s r f at

module _ (d : Deps) (p : Platform) where
  poll_waiting-Leaves :
      (fuel : ℕ) (others : Others d) (waker : Waker) (stream : PollEvented d)
      → Leaves d (poll_connect d p fuel others waker (waiting stream))
  unfolding poll_connect
  poll_waiting-Leaves fuel others waker stream =
      polled-Leaves d (Readiness.poll_write_ready d p fuel others waker stream)

  -- An error of a Unix connection that was waiting leaves the future waiting with a stream.
  pub unix_error_keeps_waiting :
      (fuel : ℕ) (others : Others d) (waker : Waker) (stream : PollEvented d) (f : ConnectFuture d)
      (e : IoError)
      → poll_connect d p fuel others waker (waiting stream) ≡ some (done (ready (err e), f))
      → (stream' : PollEvented d) × (f ≡ waiting stream')
  unix_error_keeps_waiting fuel others waker stream f e at =
      poll_waiting-Leaves fuel others waker stream (err e) f at

  -- A Unix connection that has returned its stream panics at every later poll.
  pub unix_connects_once :
      (fuel fuel' : ℕ) (others others' : Others d) (waker waker' : Waker)
      (stream stream' : PollEvented d) (f : ConnectFuture d)
      → poll_connect d p fuel others waker (waiting stream) ≡ some (done (ready (ok stream'), f))
      → poll_connect d p fuel' others' waker' f ≡ some panics
  unfolding poll_connect
  unix_connects_once fuel fuel' others others' waker waker' stream stream' f at =
      let e = poll_waiting-Leaves fuel others waker stream (ok stream') f at in ground (arith, e)
