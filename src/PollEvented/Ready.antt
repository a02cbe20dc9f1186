-- ===== src/PollEvented/Ready.antt =====
-- src/raw/poll_evented.rs: `poll_read_ready` and `poll_write_ready`, which differ in the direction,
-- and `clear_read_ready` and `clear_write_ready`. The loop that drains the registration's stream
-- takes fuel, one unit a round.
use romio.Base.{
  ℕ, zero, suc, none, some, [], ◌∷◌, bit_and, bit_or, if◌then◌else◌, Waker, Poll, ready, pending,
  IoResult, ok, err, done, panics,
}
use romio.Base.Bits.{bit_not}
use romio.Deps.{Deps}
use romio.Reactor.State.{Direction, read, write}
use romio.Reactor.Platform.{Platform, hup}
use romio.Reactor.World.{wake}
use romio.Reactor.Registration.Poll.{Others, poll_direction_ready, poll_ready}
use romio.Reactor.Registration.Poll as Registration
use romio.PollEvented.State.{
  PollEvented, Run, returns, ◌>>=◌, ◌>>◌, get_ref, cached, store, on_cell,
}

module _ (d : Deps) (p : Platform) where
  open d use {Ready, readable, writable, is_empty, ready_or, ready_and, as_usize, from_usize}

  -- `mio::Ready::readable()` or `mio::Ready::writable()`
  unfoldable pub flag : Direction → Ready
  flag read = readable
  flag write = writable

  -- `let mask = mio::Ready::readable() | platform::hup()`, or the same with `writable`
  unfoldable pub wanted : Direction → Ready
  wanted direction = ready_or (flag direction) (hup d p)

  -- `PollEvented::register`
  unfoldable pub register : Others d → Run (PollEvented d) (IoResult (Unit {0}))
  register others = do
    io ← get_ref d
    res ← on_cell d (Registration.register d others io)
    returns (elim res [ ok _ ↦ ok tt | err e ↦ err e ])

  -- The loop under `if ret.is_empty()`: `seen` is the cached readiness.
  unfoldable pub drain_loop :
      ℕ → Others d → Waker → Direction → ℕ → Ready → Run (PollEvented d) (Poll (IoResult Ready))
  drain_loop zero others waker direction seen ret s = none
  drain_loop (suc fuel) others waker direction seen ret s =
      elim (on_cell d (poll_direction_ready d p others waker direction) s) [
        | none ↦ none
        | some panics ↦ some panics
        | some (done (pending, s')) ↦ some (done (pending, s'))
        | some (done (ready (err e), s')) ↦ some (done (ready (err e), s'))
        | some (done (ready (ok flags), s')) ↦
            let seen' = bit_or seen (as_usize flags) in
            let ret' = ready_or ret (ready_and flags (wanted direction)) in
            let s'' = store d direction seen' s' in
            let next = drain_loop fuel others waker direction seen' ret' s'' in
            if is_empty ret' then next else some (done (ready (ok ret'), s''))
      ]

  -- The other branch: what is new is added to the cache, and nobody is to be notified.
  unfoldable pub refresh : Others d → Direction → ℕ → Run (PollEvented d) (Poll (IoResult Ready))
  refresh others direction seen = do
    res ← on_cell d (poll_ready d p others none direction)
    elim res [
      | err e ↦ returns (ready (err e))
      | ok none ↦ returns (ready (ok (from_usize seen)))
      | ok (some flags) ↦ λ s.
          let seen' = bit_or seen (as_usize flags) in
          some (done (ready (ok (from_usize seen')), store d direction seen' s))
    ]

  -- After `self.register()?`
  unfoldable pub poll_registered :
      ℕ → Others d → Waker → Direction → Run (PollEvented d) (Poll (IoResult Ready))
  poll_registered fuel others waker direction s =
      let seen = cached d direction s in
      let ret = ready_and (from_usize seen) (flag direction) in
      if is_empty ret
      then drain_loop fuel others waker direction seen ret s
      else refresh others direction seen s

  -- `poll_read_ready` and `poll_write_ready`
  unfoldable pub poll_evented_ready :
      ℕ → Others d → Waker → Direction → Run (PollEvented d) (Poll (IoResult Ready))
  poll_evented_ready fuel others waker direction = do
    res ← register others
    elim res [
      | err e ↦ returns (ready (err e))
      | ok _ ↦ poll_registered fuel others waker direction
    ]

  -- `cx.waker().wake_by_ref()`
  unfoldable pub wake_task : Waker → Run (PollEvented d) (Unit {0})
  wake_task waker s =
      some (
        done (tt, record s { cell = record (s.cell) { world = wake d (waker ∷ []) s.cell.world } }))

  -- `self.inner.read_readiness.fetch_and(!mio::Ready::readable().as_usize(), Relaxed)`
  unfoldable pub clear_cached : Direction → Run (PollEvented d) (Unit {0})
  clear_cached direction s = some (
      done (
        tt,
        store d direction (bit_and (cached d direction s) (bit_not (as_usize (flag direction)))) s,
      ))

  -- `clear_read_ready` and `clear_write_ready`
  unfoldable pub clear_ready :
      ℕ → Others d → Waker → Direction → Run (PollEvented d) (IoResult (Unit {0}))
  clear_ready fuel others waker direction = do
    clear_cached direction
    res ← poll_evented_ready fuel others waker direction
    elim res [
      | pending ↦ returns (ok tt)
      | ready (err e) ↦ returns (err e)
      | ready (ok _) ↦ do wake_task waker; returns (ok tt)
    ]

  -- The public methods of each direction.
  unfoldable pub poll_read_ready :
      ℕ → Others d → Waker → Run (PollEvented d) (Poll (IoResult Ready))
  poll_read_ready fuel others waker = poll_evented_ready fuel others waker read

  unfoldable pub clear_read_ready : ℕ → Others d → Waker → Run (PollEvented d) (IoResult (Unit {0}))
  clear_read_ready fuel others waker = clear_ready fuel others waker read

  unfoldable pub poll_write_ready :
      ℕ → Others d → Waker → Run (PollEvented d) (Poll (IoResult Ready))
  poll_write_ready fuel others waker = poll_evented_ready fuel others waker write

  unfoldable pub clear_write_ready :
      ℕ → Others d → Waker → Run (PollEvented d) (IoResult (Unit {0}))
  clear_write_ready fuel others waker = clear_ready fuel others waker write
