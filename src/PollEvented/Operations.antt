-- ===== src/PollEvented/Operations.antt =====
-- src/raw/poll_evented.rs: `poll_read`, `poll_write` and `poll_flush` of a registered object
-- while other threads dispatch events.
use romio.Base.{
  ◌≡◌, refl, ◌∙◌, false, Bool-cases, arith, inl, inr, ◌⊎◌, Option, some, List, [], ◌∷◌, Waker, Poll,
  ready, pending, IoResult, ok, err, Outcome, done, bit_and,
}
use romio.Base.Bits.{bit_not}
use romio.Deps.{Deps}
use romio.Reactor.State.{Direction, ScheduledIo}
use romio.Reactor.Platform.{Platform}
use romio.Reactor.World.{wake}
use romio.Reactor.Woken.{Woken-append_right}
use romio.Reactor.Registration.Poll.{Others}
use romio.Reactor.Registration.Interference.{Calm}
use romio.PollEvented.State.{PollEvented, Run, returns, ◌>>=◌, cached, store, get_ref, on_os}
use romio.PollEvented.Ready.{flag, poll_evented_ready, clear_ready, clear_cached, wake_task}
use romio.PollEvented.Io.{is_wouldblock, settle, poll_op}
use romio.PollEvented.Attached.{Attached}
use romio.PollEvented.Contract.{Live, Hears, store-io, store-Live}
use romio.PollEvented.Polls.{poll-Settles}

module _ (d : Deps) (p : Platform) where
  open d use {Os, Source}

  -- The outcomes of an operation that keep the contract: a result that is not `WouldBlock`, or
  -- `Pending` with a task that hears of the object again. The object is registered with a live reactor.
  abbrev pub Answers :
      {A : Type 0}
      → Waker
      → Direction
      → Option (Outcome (Poll (IoResult A) × PollEvented d))
      → Type 0
  Answers {A} w dir o =
      (s : PollEvented d) × (((r : IoResult A) × (o ≡ some (done (ready r, s)))
          × (is_wouldblock r ≡ false)
          × Live d p s)
        ⊎ ((o ≡ some (done (pending, s))) × Hears d p w dir s))

  -- The object after a call of the operating system.
  abbrev pub called : Os → PollEvented d → PollEvented d
  called os s = record s { cell = record (s.cell) { world = record (s.cell.world) { os = os } } }

  pub called-Live : (os : Os) (s : PollEvented d) → Live d p s → Live d p (called os s)
  called-Live os s (io, a) = (
    io,
    record {
      tie = a.tie;
      inner = a.inner;
      is_ready = a.is_ready;
      tied = a.tied;
      has_token = a.has_token;
      alive = a.alive;
      there = a.there;
      fits = a.fits;
    },
  )

  wake-Live :
      (tasks : List Waker) (s : PollEvented d)
      → Live d p s
      → Live d p (record s { cell = record (s.cell) { world = wake d tasks s.cell.world } })
  unfolding wake
  wake-Live tasks s (io, a) = (
    io,
    record {
      tie = a.tie;
      inner = a.inner;
      is_ready = a.is_ready;
      tied = a.tied;
      has_token = a.has_token;
      alive = a.alive;
      there = a.there;
      fits = a.fits;
    },
  )

module _ (d : Deps) (p : Platform) (others : Others d) (calm : Calm d p others) where
  open d use {Os, Source}

  pub clear_ready-Hears :
      (w : Waker) (dir : Direction) (source : Source) (s : PollEvented d)
      → s.io ≡ some source
      → Live d p s
      → (s' : PollEvented d) × (clear_ready d p 2 others w dir s ≡ some (done (ok tt, s')))
        × Hears d p w dir s'
  unfolding clear_ready clear_cached wake_task wake
  clear_ready-Hears w dir source s held (io, a) =
      let n = bit_and (cached d dir s) (bit_not (d.as_usize (flag d p dir))) in
      let (s', kept, settles) =
        poll-Settles d p others calm w dir source (store d dir n s) io (store-io d p dir n s ∙ held)
          (store-Live d p dir n s io a) in
      elim settles [
        | inr (nothing, hears) ↦ (s', ground (arith, nothing), hears)
        | inl (flags, some_flags, live) ↦ (
          record s' { cell = record (s'.cell) { world = wake d (w ∷ []) s'.cell.world } },
          ground (arith, some_flags),
          (
            wake-Live d p (w ∷ []) s' live,
            inr (Woken-append_right w s'.cell.world.woken (w ∷ []) (inl refl)),
          ),
        )
      ]

  settle-Answers :
      {A : Type 0} (w : Waker) (dir : Direction) (source : Source) (r : IoResult A)
      (s : PollEvented d)
      → s.io ≡ some source
      → Live d p s
      → Answers d p w dir (settle d p 2 others w dir r s)
  unfolding settle
  settle-Answers w dir source r s held live = elim (Bool-cases (is_wouldblock r)) [
    | inl blocks ↦
        let (s', cleared, hears) = clear_ready-Hears w dir source s held live in
        (s', inr (ground (arith, blocks, cleared), hears))
    | inr fine ↦ (s, inl (r, ground (arith, fine), fine, live))
  ]

  -- What every operation does: wait for readiness, call, and finish with the result of the call.
  abbrev pub attempt :
      {A B : Type 0}
      → Waker
      → Direction
      → (Source → Os → B × Os)
      → (B → Run (PollEvented d) (Poll (IoResult A)))
      → Run (PollEvented d) (Poll (IoResult A))
  attempt w dir op finish = do
    res ← poll_evented_ready d p 2 others w dir
    elim res [
      | pending ↦ returns pending
      | ready (err e) ↦ returns (ready (err e))
      | ready (ok _) ↦ do io ← get_ref d; r ← on_os d (op io); finish r
    ]

  pub attempt-Answers :
      {A B : Type 0} (w : Waker) (dir : Direction) (op : Source → Os → B × Os)
      (finish : B → Run (PollEvented d) (Poll (IoResult A))) (source : Source) (s : PollEvented d)
      (io : ScheduledIo d)
      → ((b : B) (t : PollEvented d)
          → t.io ≡ some source
          → Live d p t
          → Answers d p w dir (finish b t))
      → s.io ≡ some source
      → Attached d s.cell io
      → Answers d p w dir (attempt w dir op finish s)
  unfolding get_ref on_os
  attempt-Answers w dir op finish source s io finishes held a =
      let (s', kept, settles) = poll-Settles d p others calm w dir source s io held a in
      elim settles [
        | inr (nothing, hears) ↦ (s', inr (ground (arith, nothing), hears))
        | inl (flags, some_flags, live) ↦
            let (b, os) = op source s'.cell.world.os in
            let (s'', answers) =
              finishes b (called d p os s') (kept ∙ held) (called-Live d p os s' live) in
            elim answers [
              | inl (r, finished, fine, alive) ↦
                  (s'', inl (r, ground (arith, some_flags, finished, kept, held), fine, alive))
              | inr (finished, hears) ↦
                  (s'', inr (ground (arith, some_flags, finished, kept, held), hears))
            ]
      ]

  -- The contract of an operation: while other threads dispatch events to its source, on an object
  -- that is registered with a live reactor, `poll_read`, `poll_write` and `poll_flush` end within two rounds of each of their loops, for
  -- every call of the operating system, with the object still registered. They return a result that is not
  -- `WouldBlock`, or `Pending` with the task woken or its waker registered for the direction. In each poll
  -- of the registration, before the waker is registered and before the flags are taken again, other
  -- threads may add `readable`, `writable` and HUP to the source, and take a waker whose task they wake.
  pub poll_op-Answers :
      {A : Type 0} (w : Waker) (dir : Direction) (op : Source → Os → IoResult A × Os)
      (source : Source) (s : PollEvented d) (io : ScheduledIo d)
      → s.io ≡ some source
      → Attached d s.cell io
      → Answers d p w dir (poll_op d p 2 others w dir op s)
  unfolding poll_op
  poll_op-Answers w dir op source s io held a =
      attempt-Answers w dir op (settle d p 2 others w dir) source s io
        (λ r t. settle-Answers w dir source r t) held a
