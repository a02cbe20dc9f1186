-- ===== src/PollEvented/Match.antt =====
-- src/tcp/listener.rs, src/udp.rs and src/uds: the sockets test for a call that would block by a
-- `match` on its result, where src/raw/poll_evented.rs calls `is_wouldblock`.
use romio.Base.{ℕ, if◌then◌else◌, Waker, Poll, ready, pending, IoResult, ok, err}
use romio.Deps.{Deps}
use romio.Reactor.State.{Direction}
use romio.Reactor.Platform.{Platform}
use romio.Reactor.Registration.Poll.{Others}
use romio.PollEvented.State.{PollEvented, Run, returns, ◌>>=◌, get_ref, on_os}
use romio.PollEvented.Ready.{poll_evented_ready, clear_ready}
use romio.PollEvented.Io.{is_block}

module _ (d : Deps) (p : Platform) where
  open d use {Os, Source}

  -- `self.io.clear_..(cx)?; Poll::Pending`
  unfoldable pub block :
      {A : Type 0} → ℕ → Others d → Waker → Direction → Run (PollEvented d) (Poll (IoResult A))
  block fuel others waker direction = do
    res ← clear_ready d p fuel others waker direction
    elim res [ ok _ ↦ returns pending | err e ↦ returns (ready (err e)) ]

  -- `match r { Ok(n) => .., Err(ref e) if e.kind() == WouldBlock => .., Err(e) => .. }`
  unfoldable pub settle_match :
      {A : Type 0}
      → ℕ
      → Others d
      → Waker
      → Direction
      → IoResult A
      → Run (PollEvented d) (Poll (IoResult A))
  settle_match fuel others waker direction (ok a) = returns (ready (ok a))
  settle_match fuel others waker direction (err e) =
      if is_block e.kind then block fuel others waker direction else returns (ready (err e))

  -- `ready!(self.io.poll_.._ready(cx)?)`, the call, and the `match`
  unfoldable pub match_op :
      {A : Type 0}
      → ℕ
      → Others d
      → Waker
      → Direction
      → (Source → Os → IoResult A × Os)
      → Run (PollEvented d) (Poll (IoResult A))
  match_op fuel others waker direction op = do
    res ← poll_evented_ready d p fuel others waker direction
    elim res [
      | pending ↦ returns pending
      | ready (err e) ↦ returns (ready (err e))
      | ready (ok _) ↦ do
        io ← get_ref d
        r ← on_os d (op io)
        settle_match fuel others waker direction r
    ]
