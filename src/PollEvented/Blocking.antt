-- ===== src/PollEvented/Blocking.antt =====
-- The two ways in which the sources test for a call that would block are one.
use romio.Base.{ℕ, ◌≡◌, refl, ap, arith, Waker, Poll, ready, pending, IoResult, ok, err}
use mathlib.Core.Path.{fun_ext}
use romio.Deps.{Deps}
use romio.Reactor.State.{Direction}
use romio.Reactor.Platform.{Platform}
use romio.Reactor.Registration.Poll.{Others}
use romio.PollEvented.State.{PollEvented, Run, returns, ◌>>=◌, get_ref, on_os}
use romio.PollEvented.Ready.{poll_evented_ready}
use romio.PollEvented.Io.{is_wouldblock, settle, poll_op}
use romio.PollEvented.Match.{block, settle_match, match_op}

module _ (d : Deps) (p : Platform) where
  settle_match-settle :
      {A : Type 0} (fuel : ℕ) (others : Others d) (waker : Waker) (dir : Direction) (r : IoResult A)
      → settle_match d p fuel others waker dir r ≡ settle d p fuel others waker dir r
  unfolding settle_match settle block is_wouldblock
  settle_match-settle fuel others waker dir (ok a) = refl
  settle_match-settle fuel others waker dir (err e) = fun_ext λ s. ground arith

  -- Both forms, over what is done with the result.
  abbrev with_settle :
      {A : Type 0}
      → ℕ
      → Others d
      → Waker
      → Direction
      → (d.Source → d.Os → IoResult A × d.Os)
      → (IoResult A → Run (PollEvented d) (Poll (IoResult A)))
      → Run (PollEvented d) (Poll (IoResult A))
  with_settle fuel others waker dir op settled = do
    res ← poll_evented_ready d p fuel others waker dir
    elim res [
      | pending ↦ returns pending
      | ready (err e) ↦ returns (ready (err e))
      | ready (ok _) ↦ do io ← get_ref d; r ← on_os d (op io); settled r
    ]

  -- An operation whose result is taken apart by `match`, as the listeners and datagram sockets do,
  -- and one that asks `is_wouldblock`, as `PollEvented` does, are the same: for every call of the
  -- operating system, at every state, with whatever other threads do.
  pub match_op-poll_op :
      {A : Type 0} (fuel : ℕ) (others : Others d) (waker : Waker) (dir : Direction)
      (op : d.Source → d.Os → IoResult A × d.Os)
      → match_op d p fuel others waker dir op ≡ poll_op d p fuel others waker dir op
  unfolding match_op poll_op
  match_op-poll_op fuel others waker dir op =
      ap (with_settle fuel others waker dir op)
        (fun_ext (settle_match-settle fuel others waker dir))
