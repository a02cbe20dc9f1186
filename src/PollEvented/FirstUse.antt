-- ===== src/PollEvented/FirstUse.antt =====
-- src/raw/poll_evented.rs: the first operation on a new object, which registers it.
use romio.Base.{ℕ, ◌<◌, ◌≡◌, refl, ◌∙◌, sym, true, arith, some, Waker, IoResult, ok, done, subst}
use romio.Deps.{Deps}
use romio.Reactor.State.{Direction, Inner, max_sources}
use romio.Reactor.Platform.{Platform}
use romio.Reactor.World.{World, update}
use romio.Reactor.Handle.{try_current}
use romio.Reactor.Sources.{add_source, new_io}
use romio.Reactor.Valid.{IsValid}
use romio.Reactor.Registration.State.{init_state, ready_state}
use romio.Reactor.Registration.Source.{Gap}
use romio.Reactor.Registration.State.{Cell}
use romio.Reactor.Registration.Poll.{Others, alone}
use romio.Reactor.Registration.Poll as Registration
use romio.Reactor.Registration.Interference.{Polite, Calm}
use romio.Reactor.Registration.First.{register_first}
use romio.PollEvented.State.{PollEvented, Run, ◌>>=◌, get_ref, on_cell}
use romio.PollEvented.Ready.{register, poll_evented_ready, poll_registered}
use romio.PollEvented.Io.{poll_op}
use romio.PollEvented.Lifetime.{registered-ok}
use romio.PollEvented.Attached.{Attached}
use romio.PollEvented.Polls.{poll_evented_ready-registered}
use romio.PollEvented.Operations.{Answers, poll_op-Answers}

bind-cong :
    {S A B : Type 0} (m : Run S A) (k : A → Run S B) (s s' : S)
    → m s ≡ m s'
    → (m >>= k) s ≡ (m >>= k) s'
bind-cong m k s s' e = ground (arith, e)

module _ (d : Deps) where
  open d use {get, Source, Os}

  -- The key that a source is added under is below the limit, and holds a new entry.
  added_entry :
      (source : Source) (key : ℕ) (inner inner' : Inner d) (os os' : Os)
      → IsValid d inner
      → add_source d source inner os ≡ (ok key, inner', os')
      → (key < max_sources) × (get key inner'.io_dispatch ≡ some (new_io d inner.next_aba_guard))
  unfolding add_source
  added_entry source key inner inner' os os' v e =
      let new = new_io d inner.next_aba_guard in
      (
        ground (
          arith,
          e,
          d.insert-slots new inner.io_dispatch,
          d.slots-insert new inner.io_dispatch max_sources v.few,
          v.held,
        ),
        ground (arith, e, d.get-insert new inner.io_dispatch key),
      )

  -- The object after a registration that succeeded.
  abbrev after_registration : ℕ → ℕ → Inner d → Os → World d → PollEvented d → PollEvented d
  after_registration handle key inner os before s = record s {
    cell = record {
      reg = record { inner = some (record { handle = handle; token = key }); state = ready_state };
      world = record before { os = os; reactors = update before.reactors handle (some inner) };
    };
  }

module _ (d : Deps) (p : Platform) where
  open d use {Source, Os}

  -- Nobody else registers the object or makes the fallback reactor, while others may act between the
  -- accesses of `poll_ready`.
  abbrev pub registering_alone : Gap d → Gap d → Others d
  registering_alone before_waker before_retry = record (alone d) {
    before_waker = before_waker;
    before_retry = before_retry;
  }

  register_is_alone :
      (before_waker before_retry : Gap d) (source : Source) (c : Cell d)
      → Registration.register d (registering_alone before_waker before_retry) source c
        ≡ Registration.register d (alone d) source c
  unfolding Registration.register Registration.register_loop Registration.associate
  register_is_alone before_waker before_retry source c = refl

  -- A new object registers, and then polls its registration.
  first_poll :
      (before_waker before_retry : Gap d) (fuel : ℕ) (w : Waker) (dir : Direction) (source : Source)
      (handle key : ℕ) (inner inner' : Inner d) (os' : Os) (before : World d) (s : PollEvented d)
      → s.io ≡ some source
      → s.cell.reg.state ≡ init_state
      → try_current d (λ v. v) true s.cell.world ≡ done (ok handle, before)
      → before.reactors handle ≡ some inner
      → add_source d source inner before.os ≡ (ok key, inner', os')
      → poll_evented_ready d p fuel (registering_alone before_waker before_retry) w dir s
        ≡ poll_registered d p fuel
            (registering_alone before_waker before_retry)
            w
            dir
            (after_registration d handle key inner' os' before s)
  unfolding poll_evented_ready register get_ref on_cell
  first_poll before_waker before_retry fuel w dir source handle key inner inner' os' before s held
        init current alive added =
      ground (
        arith,
        held,
        added,
        register_is_alone before_waker before_retry source s.cell,
        register_first d source handle inner s.cell before init current alive,
        registered-ok d source handle key inner inner' os' (record (s.cell) { world = before })
            added,
      )

  -- The contract of an operation on a new object: with a handle to a reactor that is alive, the current
  -- one or the fallback, whose table is well formed and which accepts the source, and with nobody else
  -- who registers the object, the first `poll_read`, `poll_write` or `poll_flush` ends within two rounds of each of
  -- its loops, for every call of the operating system, and leaves the object registered: its registration
  -- is `READY` and tied to a live reactor whose table has its entry. It returns
  -- a result that is not `WouldBlock`, or `Pending` with the task woken or its waker registered for the
  -- direction. In each poll of the registration, before the waker is registered and before the flags
  -- are taken again, other threads may add `readable`, `writable` and HUP to the source, and take a waker
  -- whose task they wake.
  pub first_op-Answers :
      {A : Type 0} (before_waker before_retry : Gap d) (w : Waker) (dir : Direction)
      (op : Source → Os → IoResult A × Os) (source : Source) (handle key : ℕ)
      (inner inner' : Inner d) (os' : Os) (before : World d) (s : PollEvented d)
      → Polite d p before_waker
      → Polite d p before_retry
      → s.io ≡ some source
      → s.cell.reg.state ≡ init_state
      → try_current d (λ v. v) true s.cell.world ≡ done (ok handle, before)
      → before.reactors handle ≡ some inner
      → IsValid d inner
      → add_source d source inner before.os ≡ (ok key, inner', os')
      → Answers d p w dir (poll_op d p 2 (registering_alone before_waker before_retry) w dir op s)
  unfolding poll_op
  first_op-Answers before_waker before_retry w dir op source handle key inner inner' os' before s
        first second held init current alive valid added =
      let s' = after_registration d handle key inner' os' before s in
      let others = registering_alone before_waker before_retry in
      let calm : Calm d p others = record { first = first; second = second } in
      let (small, there) = added_entry d source key inner inner' before.os os' valid added in
      let a : Attached d s'.cell (new_io d inner.next_aba_guard) = record {
        tie = record { handle = handle; token = key };
        inner = inner';
        is_ready = refl;
        tied = refl;
        has_token = omega arith;
        alive = ground arith;
        there = there;
        fits = omega arith;
      } in
      let same : poll_evented_ready d p 2 others w dir s
          ≡ poll_evented_ready d p 2 others w dir s' =
        first_poll before_waker before_retry 2 w dir source handle key inner inner' os' before s
          held init current alive added
        ∙ sym (
            poll_evented_ready-registered d p others 2 w dir source s'
              (new_io d inner.next_aba_guard) held a) in
      subst (Answers d p w dir)
        (sym (bind-cong (poll_evented_ready d p 2 others w dir) _ s s' same))
        (poll_op-Answers d p others calm w dir op source s' (new_io d inner.next_aba_guard) held a)
