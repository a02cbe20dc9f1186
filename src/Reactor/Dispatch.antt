-- ===== src/Reactor/Dispatch.antt =====
-- src/reactor/mod.rs: `Reactor::dispatch`, the delivery of one event to the source of its token.
use romio.Base.{
  ℕ, Bool, not, ◌||◌, Option, none, some, List, [], ◌∷◌, ◌++◌, bit_or, ◌==◌, if◌then◌else◌, Waker,
}
use romio.Deps.{Deps}
use romio.Reactor.State.{ScheduledIo, Inner}
use romio.Reactor.Platform.{Platform, is_hup}
use romio.Reactor.Tokens.{token_guard, token_key}

-- `if let Some(task) = rd { task.wake(); }`: the wakers that are woken, in order.
abbrev pub wake_option : Option Waker → List Waker
wake_option none = []
wake_option (some task) = task ∷ []

module _ (d : Deps) (p : Platform) where
  open d use {Ready, writable, is_empty, is_writable, ready_and, ready_not, as_usize, take_waker}
  open d use {get, modify}

  -- The tests of `dispatch` on the event's readiness.
  unfoldable pub wakes_writer : Ready → Bool
  wakes_writer ready = is_writable ready || is_hup d p ready

  unfoldable pub wakes_reader : Ready → Bool
  wakes_reader ready = not (is_empty (ready_and ready (ready_not writable)))

  -- `io.readiness.fetch_or(ready.as_usize(), Relaxed)`
  unfoldable pub set_flags : Ready → ScheduledIo d → ScheduledIo d
  set_flags ready io = record io { readiness = bit_or io.readiness (as_usize ready) }

  -- `wr = io.writer.take()` under its test
  unfoldable pub take_writer : Ready → ScheduledIo d → Option Waker × ScheduledIo d
  take_writer ready io =
      if wakes_writer ready
      then ((take_waker io.writer).0, record io { writer = (take_waker io.writer).1 })
      else (none, io)

  -- `rd = io.reader.take()` under its test
  unfoldable pub take_reader : Ready → ScheduledIo d → Option Waker × ScheduledIo d
  take_reader ready io =
      if wakes_reader ready
      then ((take_waker io.reader).0, record io { reader = (take_waker io.reader).1 })
      else (none, io)

  -- What `dispatch` does to the source: the source after it, and the tasks `rd` and `wr`.
  unfoldable pub dispatch_io : Ready → ScheduledIo d → ScheduledIo d × Option Waker × Option Waker
  dispatch_io ready io =
      let (wr, io') = take_writer ready (set_flags ready io) in
      let (rd, io'') = take_reader ready io' in (io'', rd, wr)

  -- `Reactor::dispatch`: the reactor after it, and the tasks that it wakes.
  unfoldable pub dispatch : ℕ → Ready → Inner d → Inner d × List Waker
  dispatch token ready inner = elim (get (token_key token) inner.io_dispatch) [
    | none ↦ (inner, [])
    | some io ↦
        if token_guard token == io.aba_guard
        then (
          record inner {
            io_dispatch = modify (token_key token) (λ x. (dispatch_io ready x).0) inner.io_dispatch;
          },
          wake_option (dispatch_io ready io).1 ++ wake_option (dispatch_io ready io).2,
        )
        else (inner, [])
  ]
