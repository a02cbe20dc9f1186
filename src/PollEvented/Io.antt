-- ===== src/PollEvented/Io.antt =====
-- src/raw/poll_evented.rs: `AsyncRead` and `AsyncWrite` for `PollEvented`, and its drop.
use romio.Base.{
  ℕ, Bool, true, false, none, some, List, if◌then◌else◌, Waker, Poll, ready, pending, IoResult, ok,
  err, ErrorKind, Outcome, done,
}
use romio.Deps.{Deps}
use romio.Reactor.State.{Direction, read, write}
use romio.Reactor.Platform.{Platform}
use romio.Reactor.World.{World}
use romio.Reactor.Registration.State.{Cell}
use romio.Reactor.Registration.Source.{tie_drop}
use romio.Reactor.Registration.Poll.{Others, deregister}
use romio.PollEvented.State.{PollEvented, Run, returns, ◌>>=◌, get_ref, on_os}
use romio.PollEvented.Ready.{poll_evented_ready, clear_ready}

abbrev pub is_block : ErrorKind → Bool
is_block ErrorKind.would_block = true
is_block _ = false

-- `is_wouldblock`
unfoldable pub is_wouldblock {ℓ} : {A : Type ℓ} → IoResult A → Bool
is_wouldblock (ok _) = false
is_wouldblock (err e) = is_block e.kind

module _ (d : Deps) where
  -- `impl Drop for Registration`'s contents: the registration's `Inner` is dropped, if it has one.
  unfoldable pub drop_registration : Cell d → Outcome (World d)
  drop_registration c = elim c.reg.inner [ none ↦ done c.world | some tie ↦ tie_drop d tie c.world ]

  -- `impl Drop for PollEvented`, and then the drop of its registration.
  unfoldable pub drop_evented : PollEvented d → Outcome (World d)
  drop_evented s = elim s.io [
    | none ↦ drop_registration s.cell
    | some io ↦ let (_, c) = deregister d io s.cell in drop_registration c
  ]

module _ (d : Deps) (p : Platform) where
  open d use {Os, Source}

  -- `if is_wouldblock(&r) { self.clear_..(cx)?; Poll::Pending } else { Poll::Ready(r) }`
  unfoldable pub settle :
      {A : Type 0}
      → ℕ
      → Others d
      → Waker
      → Direction
      → IoResult A
      → Run (PollEvented d) (Poll (IoResult A))
  settle fuel others waker direction r =
      if is_wouldblock r
      then (do
        res ← clear_ready d p fuel others waker direction
        elim res [ err e ↦ returns (ready (err e)) | ok _ ↦ returns pending ])
      else returns (ready r)

  -- The shape of `poll_read`, `poll_write` and `poll_flush`: wait for readiness, then try `op`.
  unfoldable pub poll_op :
      {A : Type 0}
      → ℕ
      → Others d
      → Waker
      → Direction
      → (Source → Os → IoResult A × Os)
      → Run (PollEvented d) (Poll (IoResult A))
  poll_op fuel others waker direction op = do
    res ← poll_evented_ready d p fuel others waker direction
    elim res [
      | pending ↦ returns pending
      | ready (err e) ↦ returns (ready (err e))
      | ready (ok _) ↦ do io ← get_ref d; r ← on_os d (op io); settle fuel others waker direction r
    ]

  unfoldable pub poll_read :
      ℕ → Others d → Waker → ℕ → Run (PollEvented d) (Poll (IoResult (List ℕ)))
  poll_read fuel others waker buf = poll_op fuel others waker read (λ io. d.read io buf)

  unfoldable pub poll_write :
      ℕ → Others d → Waker → List ℕ → Run (PollEvented d) (Poll (IoResult ℕ))
  poll_write fuel others waker buf = poll_op fuel others waker write (λ io. d.write io buf)

  unfoldable pub poll_flush :
      ℕ → Others d → Waker → Run (PollEvented d) (Poll (IoResult (Unit {0})))
  poll_flush fuel others waker = poll_op fuel others waker write d.flush

  unfoldable pub poll_close : Run (PollEvented d) (Poll (IoResult (Unit {0})))
  poll_close = returns (ready (ok tt))
