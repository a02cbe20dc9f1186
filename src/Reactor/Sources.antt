-- ===== src/Reactor/Sources.antt =====
-- src/reactor/mod.rs, `impl Inner`: sources enter and leave the table, tasks register with them.
use romio.Base.{
  ℕ, Bool, not, none, some, List, [], ◌∷◌, ◌++◌, bit_and, ◌==◌, if◌then◌else◌, Waker, IoResult, ok,
  err, other_error, Outcome, done, panics,
}
use romio.Deps.{Deps}
use romio.Deps.Kernel.{PollOpt}
use romio.Reactor.State.{Direction, read, write, ScheduledIo, Inner, max_sources}
use romio.Reactor.Tokens.{source_token, next_guard}
use romio.Reactor.Dispatch.{wake_option}

module _ (d : Deps) where
  open d use {Os, Source, all, writable, ready_not, as_usize}
  open d use {new_waker, register_waker, take_waker}
  open d use {len, get, insert, remove, modify, iter, poll_register, poll_deregister}

  abbrev pub new_io : ℕ → ScheduledIo d
  new_io aba_guard = record {
    aba_guard = aba_guard;
    readiness = 0;
    reader = new_waker;
    writer = new_waker;
  }

  unfoldable pub add_source : Source → Inner d → Os → IoResult ℕ × Inner d × Os
  add_source source inner os =
      let aba_guard = inner.next_aba_guard in
      let counted : Inner d = record inner { next_aba_guard = next_guard aba_guard } in
      if len inner.io_dispatch == max_sources
      then (err (other_error "reactor at max registered I/O resources"), counted, os)
      else let (key, slab) = insert (new_io aba_guard) inner.io_dispatch in
        let added : Inner d = record counted { io_dispatch = slab } in
        let (res, os') =
          poll_register inner.io source (source_token aba_guard key) all PollOpt.edge os in
        (elim res [ ok _ ↦ ok key | err e ↦ err e ], added, os')

  unfoldable pub deregister_source : Source → Inner d → Os → IoResult (Unit {0}) × Os
  deregister_source source inner os = poll_deregister inner.io source os

  -- `Slab::remove` panics on a key with no value.
  unfoldable pub drop_source : ℕ → Inner d → Outcome (Inner d)
  drop_source token inner = elim (get token inner.io_dispatch) [
    | none ↦ panics
    | some io ↦ done (record inner { io_dispatch = remove token inner.io_dispatch })
  ]

  -- The flags after which `Inner::register` wakes the task at once.
  unfoldable pub wake_flags : Direction → ℕ
  wake_flags read = as_usize (ready_not writable)
  wake_flags write = as_usize writable

  -- The waker cell of one direction.
  unfoldable pub waker_of : Direction → ScheduledIo d → d.AtomicWaker
  waker_of read io = io.reader
  waker_of write io = io.writer

  unfoldable pub set_waker : Direction → d.AtomicWaker → ScheduledIo d → ScheduledIo d
  set_waker read c io = record io { reader = c }
  set_waker write c io = record io { writer = c }

  -- `atomic_waker.wake()`
  unfoldable pub wake_io : Direction → ScheduledIo d → ScheduledIo d × List Waker
  wake_io dir io = (
    set_waker dir (take_waker (waker_of dir io)).1 io,
    wake_option (take_waker (waker_of dir io)).0,
  )

  -- `Inner::register`, on the source that it finds.
  unfoldable pub register_io : Waker → Direction → ScheduledIo d → ScheduledIo d × List Waker
  register_io waker dir io =
      let waiting = set_waker dir (register_waker waker (waker_of dir io)) io in
      if not (bit_and waiting.readiness (wake_flags dir) == 0)
      then wake_io dir waiting
      else (waiting, [])

  unfoldable pub register : Waker → ℕ → Direction → Inner d → Outcome (Inner d × List Waker)
  register waker token dir inner = elim (get token inner.io_dispatch) [
    | none ↦ panics
    | some io ↦ done (
      record inner {
        io_dispatch = modify token (λ x. (register_io waker dir x).0) inner.io_dispatch;
      },
      (register_io waker dir io).1,
    )
  ]

  -- `impl Drop for Inner`: the tasks that it wakes, in order.
  unfoldable pub wake_all : List (ℕ × ScheduledIo d) → List Waker
  wake_all [] = []
  wake_all ((k, io) ∷ rest) =
      (wake_io write io).1 ++ ((wake_io read (wake_io write io).0).1 ++ wake_all rest)

  unfoldable pub drop_inner : Inner d → List Waker
  drop_inner inner = wake_all (iter inner.io_dispatch)

  -- `Reactor::is_idle`
  unfoldable pub is_idle : Inner d → Bool
  is_idle inner = len inner.io_dispatch == 0
