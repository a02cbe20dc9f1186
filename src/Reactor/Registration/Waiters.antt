-- ===== src/Reactor/Registration/Waiters.antt =====
-- src/reactor/registration.rs: a task that polls while another thread makes the registration.
use romio.Base.{
  ℕ, suc, ◌+◌, ◌*◌, ◌<◌, ◌^◌, ◌≡◌, ◌≢◌, refl, ◌∙◌, ap, true, false, Bool-cases, inl, inr, ◌⊎◌, none,
  Option, some, [], ◌∷◌, arith, ◌==◌, bit_and, bit_or, Waker, IoResult, ok, err, done,
}
use romio.Base.Bits.{usize_bits, complement, bit_and-high}
use romio.Deps.{Deps}
use romio.Reactor.State.{Direction, read, write, ScheduledIo, Inner}
use romio.Reactor.Platform.{Platform}
use romio.Reactor.World.{World, waker_pointer, address, update, upgrade, put_reactor, wake}
use romio.Reactor.Sources.{wake_flags, waker_of, register, register_io, wake_io, set_waker}
use romio.Reactor.Registration.State.{
  Tie, Cell, locked_state, ready_state, error_token, node_pointer,
}
use romio.Reactor.Registration.Source.{tie_register}
use romio.Reactor.Registration.Poll.{
  alone, seen, mark, visit, drain, unlock, box_node, push, poll_loop, poll_ready,
}
use romio.Reactor.Registration.Rounds.{locked_word}
use romio.Reactor.Woken.{Woken, Woken-append_right, Woken-wake_option}

-- The pointer of a locked word.
pub pointer_lem :
    (n : ℕ)
    → address n < 2 ^ usize_bits
    → node_pointer (bit_or (address n) locked_state) ≡ address n
unfolding node_pointer complement
pointer_lem n fits =
    let e : address n + locked_state ≡ (2 * suc n) * 2 ^ 2 + 1 = omega arith in
    rw (locked_word n, e)
      (bit_and-high 2 64 (2 * suc n) 1 (omega arith) (omega arith) (omega arith) ∙ omega arith)

module _ (d : Deps) (p : Platform) where
  open d use {get}

  -- The task was woken, or the entry of the tie holds its waker.
  abbrev pub Served : Waker → Direction → Tie → World d → Type 0
  Served w dir tie world =
      Woken w world.woken
      ⊎ ((inner : Inner d) × (io : ScheduledIo d) × (world.reactors tie.handle ≡ some inner)
          × (get tie.token inner.io_dispatch ≡ some io)
          × ((d.take_waker (waker_of d dir io)).0 ≡ some w))

  -- A tie that is an error, to a reactor that is gone, or to a live entry.
  abbrev pub Sound : Tie → World d → Type 0
  Sound tie world =
      (tie.token ≡ error_token)
      ⊎ ((world.reactors tie.handle ≡ none)
          ⊎ ((inner : Inner d) × (io : ScheduledIo d) × (world.reactors tie.handle ≡ some inner)
              × (get tie.token inner.io_dispatch ≡ some io)))

  register_io-serves :
      (w : Waker) (dir : Direction) (io : ScheduledIo d)
      → (Woken w (register_io d w dir io).1)
        ⊎ ((d.take_waker (waker_of d dir (register_io d w dir io).0)).0 ≡ some w)
  unfolding register_io wake_io set_waker waker_of
  register_io-serves w read io = elim (Bool-cases (bit_and io.readiness (wake_flags d read) == 0)) [
    | inl dry ↦ inr (ground (arith, d.take-register w io.reader))
    | inr hit ↦ inl (rw hit (Woken-wake_option w _ (d.take-register w io.reader)))
  ]
  register_io-serves w write io =
      elim (Bool-cases (bit_and io.readiness (wake_flags d write) == 0)) [
        | inl dry ↦ inr (ground (arith, d.take-register w io.writer))
        | inr hit ↦ inl (rw hit (Woken-wake_option w _ (d.take-register w io.writer)))
      ]

  woken_now :
      (w : Waker) (dir : Direction) (tie : Tie) (world : World d)
      → Served w dir tie (wake d (w ∷ []) world)
  unfolding wake
  woken_now w dir tie world = inl (Woken-append_right w world.woken (w ∷ []) (inl refl))

  -- What `Inner::register` does for a task: it returns, serves the task and frees nothing.
  abbrev Registers : Waker → Direction → Tie → World d → Type 0
  Registers w dir tie world =
      (after : World d) × (tie_register d w dir tie world ≡ done after)
      × Served w dir tie after
      × (after.boxes ≡ world.boxes)

  register_live :
      (w : Waker) (dir : Direction) (tie : Tie) (world : World d) (inner : Inner d)
      (io : ScheduledIo d)
      → tie.token ≢ error_token
      → world.reactors tie.handle ≡ some inner
      → get tie.token inner.io_dispatch ≡ some io
      → Registers w dir tie world
  unfolding tie_register register upgrade wake put_reactor
  register_live w dir tie world inner io good alive there = (
    after,
    ground (arith, good, alive, there),
    elim (register_io-serves w dir io) [
      | inl woken ↦ inl (Woken-append_right w world.woken _ woken)
      | inr waits ↦ inr (
        inner',
        (register_io d w dir io).0,
        ground arith,
        ground (arith, d.get-modify tie.token f inner.io_dispatch tie.token, there),
        waits,
      )
    ],
    refl,
  )
    where
      f : ScheduledIo d → ScheduledIo d
      f x = (register_io d w dir x).0

      inner' : Inner d
      inner' = record inner { io_dispatch = d.modify tie.token f inner.io_dispatch }

      after : World d
      after = wake d (register_io d w dir io).1 (put_reactor d tie.handle inner' world)

  tie_register-serves :
      (w : Waker) (dir : Direction) (tie : Tie) (world : World d)
      → Sound tie world
      → Registers w dir tie world
  unfolding tie_register upgrade wake
  tie_register-serves w dir tie world (inl bad) =
      (wake d (w ∷ []) world, ground (arith, bad), woken_now w dir tie world, refl)
  tie_register-serves w dir tie world (inr (inl gone)) =
      (wake d (w ∷ []) world, ground (arith, gone), woken_now w dir tie world, refl)
  tie_register-serves w dir tie world (inr (inr (inner, io, alive, there))) =
      elim (Bool-cases (tie.token == error_token)) [
        | inl bad ↦ (wake d (w ∷ []) world, ground (arith, bad), woken_now w dir tie world, refl)
        | inr good ↦ register_live w dir tie world inner io (ground arith) alive there
      ]

  -- A list of one node is drained, if the node's pointer is still good: its box is freed and its task
  -- registered.
  drain-one :
      (fuel ptr : ℕ) (w : Waker) (dir : Direction) (tie : Tie) (world : World d)
      → ptr ≢ 0
      → world.boxes ptr ≡ some (record { direction = dir; waker = waker_pointer w; next = 0 })
      → world.contexts (waker_pointer w) ≡ some w
      → Sound tie world
      → (after : World d) × (drain d (suc (suc fuel)) ptr false false tie world ≡ some (done after))
        × Served w dir tie after
        × (after.boxes ≡ update world.boxes ptr none)
  unfolding drain visit seen mark
  drain-one fuel ptr w read tie world ne boxed lives sound =
      let (after, served, reached, same) =
        tie_register-serves w read tie (record world { boxes = update world.boxes ptr none })
          sound in
      (after, ground (arith, boxed, lives, served), reached, same)
  drain-one fuel ptr w write tie world ne boxed lives sound =
      let (after, served, reached, same) =
        tie_register-serves w write tie (record world { boxes = update world.boxes ptr none })
          sound in
      (after, ground (arith, boxed, lives, served), reached, same)

  -- The cell that a waiter leaves.
  abbrev pub queued : Waker → Direction → Cell d → Cell d
  queued w dir c = record {
    reg = record (c.reg) { state = bit_or (address c.world.allocated) locked_state };
    world = record (c.world) {
      boxes =
          update c.world.boxes (address c.world.allocated)
            (some (record { direction = dir; waker = waker_pointer w; next = 0 }));
      allocated = suc c.world.allocated;
    };
  }

  pub poll_ready-queued :
      (w : Waker) (dir : Direction) (c : Cell d)
      → c.reg.state ≡ locked_state
      → poll_ready d p (alone d) (some w) dir c ≡ some (done (ok none, queued w dir c))
  unfolding poll_ready poll_loop push box_node node_pointer complement
  poll_ready-queued w dir c locked = ground arith

  -- The contexts that are left when the thread that makes the registration gets to the waiters.
  abbrev pub with_contexts : (ℕ → Option Waker) → Cell d → Cell d
  with_contexts contexts c = record c { world = record (c.world) { contexts = contexts } }

  -- No waiter is lost whose context lasts: a task that polls while another thread makes the
  -- registration, and finds the state locked, gets `Pending`; if the context of that poll is still there
  -- when the other thread leaves the locked state, the state is `READY` then, the waiter's box is freed,
  -- and its task has been woken or its waker is registered with the source's entry. The tie may be an
  -- error, to a reactor that is gone, or to a live entry, and the address of the waiter's box fits a word.
  pub waiter-Served :
      (w : Waker) (dir : Direction) (tie : Tie) (res : IoResult (Unit {0}))
      (contexts : ℕ → Option Waker) (c : Cell d)
      → c.reg.state ≡ locked_state
      → c.reg.inner ≡ some tie
      → address c.world.allocated < 2 ^ usize_bits
      → Sound tie c.world
      → contexts (waker_pointer w) ≡ some w
      → (c' : Cell d) × (c'' : Cell d) × (poll_ready d p (alone d) (some w) dir c
          ≡ some (done (ok none, c')))
        × (unlock d res (with_contexts contexts c')
            ≡ some (done (elim res [ ok _ ↦ ok true | err e ↦ err e ], c'')))
        × (c''.reg.state ≡ ready_state)
        × (c''.world.boxes (address c.world.allocated) ≡ none)
        × Served w dir tie c''.world
  unfolding unlock
  waiter-Served w dir tie res contexts c locked tied fits sound lives =
      let c' = queued w dir c in
      let ptr = address c.world.allocated in
      let at : node_pointer c'.reg.state ≡ ptr = pointer_lem c.world.allocated fits in
      let (after, drained, served, freed) =
        drain-one c.world.allocated ptr w dir tie (with_contexts contexts c').world (omega arith)
          (ground arith) lives sound in
      (
        c',
        record { reg = record (c'.reg) { state = ready_state }; world = after },
        poll_ready-queued w dir c locked,
        ground (arith, tied, at, drained),
        refl,
        ap (λ b. b ptr) freed ∙ ground arith,
        served,
      )
