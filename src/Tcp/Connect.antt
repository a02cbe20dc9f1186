-- ===== src/Tcp/Connect.antt =====
-- src/tcp/stream.rs: the future of a connection is done once it has returned a result.
use romio.Base.{
  ℕ, ◌≡◌, Option, none, some, arith, Waker, Poll, ready, pending, IoResult, ok, err, IoError,
  Outcome, done, panics,
}
use romio.Deps.{Deps}
use romio.Reactor.Platform.{Platform}
use romio.Reactor.World.{World}
use romio.Reactor.Registration.Poll.{Others}
use romio.PollEvented.State.{PollEvented}
use romio.PollEvented.Io.{drop_evented}
use romio.PollEvented.Ready as Readiness
use romio.Tcp.Stream.{
  ConnectFuture, waiting, failed, empty, take_error, fail, connected, poll_connect,
}

module _ (d : Deps) where
  -- A step of the future, as its caller sees it.
  abbrev Answer : Type 0
  Answer = Option (Outcome (Poll (IoResult (PollEvented d)) × ConnectFuture d))

  -- If the answer is a result, the future is left empty.
  abbrev Once : Answer → Type 0
  Once a =
      (r : IoResult (PollEvented d)) (f : ConnectFuture d)
      → a ≡ some (done (ready r, f))
      → (w : World d) × (f ≡ empty w)

  dropped-Once :
      (e : IoError) (o : Outcome (World d))
      → Once (elim o [ done w ↦ some (done (ready (err e), empty w)) | panics ↦ some panics ])
  dropped-Once e (done w) r f at = (w, ground arith)
  dropped-Once e panics r f at = ground arith

  fail-Once : (e : IoError) (stream : PollEvented d) → Once (fail d e stream)
  unfolding fail
  fail-Once e stream = dropped-Once e (drop_evented d stream)

  checked-Once :
      (o : Option (Outcome (IoResult (Option IoError) × PollEvented d)))
      → Once (elim o [
        | none ↦ none
        | some panics ↦ some panics
        | some (done (err e, s)) ↦ fail d e s
        | some (done (ok (some e), s)) ↦ fail d e s
        | some (done (ok none, s)) ↦ some (done (ready (ok s), empty s.cell.world))
      ])
  checked-Once none r f at = ground arith
  checked-Once (some panics) r f at = ground arith
  checked-Once (some (done (err e, s))) r f at = fail-Once e s r f at
  checked-Once (some (done (ok (some e), s))) r f at = fail-Once e s r f at
  checked-Once (some (done (ok none, s))) r f at = (s.cell.world, ground arith)

  connected-Once : (stream : PollEvented d) → Once (connected d stream)
  unfolding connected
  connected-Once stream = checked-Once (take_error d stream)

  polled-Once :
      (o : Option (Outcome (Poll (IoResult d.Ready) × PollEvented d)))
      → Once (elim o [
        | none ↦ none
        | some panics ↦ some panics
        | some (done (pending, s)) ↦ some (done (pending, waiting s))
        | some (done (ready (err e), s)) ↦ fail d e s
        | some (done (ready (ok _), s)) ↦ connected d s
      ])
  polled-Once none r f at = ground arith
  polled-Once (some panics) r f at = ground arith
  polled-Once (some (done (pending, s))) r f at = ground arith
  polled-Once (some (done (ready (err e), s))) r f at = fail-Once e s r f at
  polled-Once (some (done (ready (ok x), s))) r f at = connected-Once s r f at

module _ (d : Deps) (p : Platform) where
  poll_connect-Once :
      (fuel : ℕ) (others : Others d) (waker : Waker) (f : ConnectFuture d)
      → Once d (poll_connect d p fuel others waker f)
  unfolding poll_connect
  poll_connect-Once fuel others waker (waiting s) r f at =
      polled-Once d (Readiness.poll_write_ready d p fuel others waker s) r f at
  poll_connect-Once fuel others waker (failed e w) r f at = (w, ground arith)
  poll_connect-Once fuel others waker (empty w) r f at = ground arith

  -- Once a poll of a TCP connection has returned a stream or an error, from whatever state of the
  -- future, every later poll panics.
  pub tcp_connects_once :
      (fuel fuel' : ℕ) (others others' : Others d) (waker waker' : Waker) (f f' : ConnectFuture d)
      (r : IoResult (PollEvented d))
      → poll_connect d p fuel others waker f ≡ some (done (ready r, f'))
      → poll_connect d p fuel' others' waker' f' ≡ some panics
  unfolding poll_connect
  tcp_connects_once fuel fuel' others others' waker waker' f f' r at =
      let (w, e) = poll_connect-Once fuel others waker f r f' at in ground (arith, e)
