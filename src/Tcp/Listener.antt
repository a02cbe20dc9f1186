-- ===== src/Tcp/Listener.antt =====
-- src/tcp/listener.rs: `TcpListener`, which is its `PollEvented`.
use romio.Base.{ℕ, Option, some, Waker, Poll, ready, pending, IoResult, ok, err}
use romio.Deps.{Deps}
use romio.Reactor.Platform.{Platform}
use romio.Reactor.World.{World}
use romio.Reactor.Registration.Poll.{Others}
use romio.PollEvented.State.{PollEvented, Run, returns, ◌>>=◌, on_os, evented_from}
use romio.PollEvented.Match.{match_op}
use romio.Reactor.State.{read}

module _ (d : Deps) where
  -- `TcpListener::bind`
  unfoldable pub bind : d.Addr → World d → IoResult (PollEvented d) × World d
  bind addr w = evented_from d (d.tcp_bind addr) w

module _ (d : Deps) (p : Platform) where
  -- `poll_accept_std`
  unfoldable pub poll_accept_std :
      ℕ → Others d → Waker → Run (PollEvented d) (Poll (IoResult (d.StdSocket × d.Addr)))
  poll_accept_std fuel others waker = match_op d p fuel others waker read d.tcp_accept_std

  -- `poll_ready`, with the mio stream that `TcpStream::new` wraps
  unfoldable pub poll_ready :
      ℕ → Others d → Waker → Run (PollEvented d) (Poll (IoResult (d.Source × d.Addr)))
  poll_ready fuel others waker = do
    accepted ← poll_accept_std fuel others waker
    elim accepted [
      | pending ↦ returns pending
      | ready (err e) ↦ returns (ready (err e))
      | ready (ok (io, addr)) ↦ do
        res ← on_os d (d.tcp_from_stream io)
        elim res [
          | ok stream ↦ returns (ready (ok (stream, addr)))
          | err e ↦ returns (ready (err e))
        ]
    ]

  -- `impl Stream for Incoming`: it never ends.
  unfoldable pub poll_next :
      ℕ → Others d → Waker → Run (PollEvented d) (Poll (Option (IoResult d.Source)))
  poll_next fuel others waker = do
    accepted ← poll_ready fuel others waker
    elim accepted [
      | pending ↦ returns pending
      | ready (err e) ↦ returns (ready (some (err e)))
      | ready (ok (stream, addr)) ↦ returns (ready (some (ok stream)))
    ]
