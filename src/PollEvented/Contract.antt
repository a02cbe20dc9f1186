-- ===== src/PollEvented/Contract.antt =====
-- src/raw/poll_evented.rs, `poll_read_ready` and `poll_write_ready`: the contract of a future's poll.
use romio.Base.{
  ℕ, ◌≡◌, refl, true, false, Bool-cases, arith, inl, inr, ◌⊎◌, Option, some, Waker, Poll, ready,
  pending, IoResult, ok, Outcome, done, subst, sym,
}
use romio.Deps.{Deps}
use romio.Reactor.State.{Direction, read, write, ScheduledIo}
use romio.Reactor.Platform.{Platform, hup}
use romio.Reactor.Sources.{waker_of}
use romio.Reactor.Woken.{Woken}
use romio.Reactor.Registration.Flags.{has, has-or, has-is_empty}
use romio.PollEvented.State.{PollEvented, store}
use romio.PollEvented.Ready.{flag, wanted}
use romio.PollEvented.Attached.{Attached, no_flags}

module _ (d : Deps) (p : Platform) where
  -- The object's entry holds the task's waker.
  abbrev pub Armed : Waker → Direction → PollEvented d → Type 0
  Armed w dir s =
      (io : ScheduledIo d) × Attached d s.cell io × ((d.take_waker (waker_of d dir io)).0 ≡ some w)

  -- The object is registered with a live reactor.
  abbrev pub Live : PollEvented d → Type 0
  Live s = (io : ScheduledIo d) × Attached d s.cell io

  -- The task hears of the object again: the object is registered, and the task was woken or the
  -- object's entry holds its waker.
  abbrev pub Hears : Waker → Direction → PollEvented d → Type 0
  Hears w dir s = Live s × (Armed w dir s ⊎ Woken w s.cell.world.woken)

  pub wanted-flag :
      (dir : Direction) (i : ℕ) → has d (flag d p dir) i ≡ true → has d (wanted d p dir) i ≡ true
  unfolding wanted
  wanted-flag dir i h = ground (arith, has-or d (flag d p dir) (hup d p) i)

  abbrev pub with_flags : Direction → d.Ready → d.Ready → d.Ready
  with_flags dir ret r = d.ready_or ret (d.ready_and r (wanted d p dir))

  -- Flags with something wanted are not empty.
  pub with_flags-ne :
      (dir : Direction) (ret r : d.Ready)
      → d.is_empty (d.ready_and r (wanted d p dir)) ≡ false
      → d.is_empty (with_flags dir ret r) ≡ false
  with_flags-ne dir ret r ne = elim (Bool-cases (d.is_empty (with_flags dir ret r))) [
    | inr flags ↦ flags
    | inl dry ↦
        let none_on : (i : ℕ) → has d (d.ready_and r (wanted d p dir)) i ≡ false = λ i. ground (
          arith,
          dry,
          has-is_empty d (with_flags dir ret r) i,
          has-or d ret (d.ready_and r (wanted d p dir)) i,
        ) in
        absurd (ground (arith, ne, no_flags d (d.ready_and r (wanted d p dir)) none_on))
  ]

  pub store-cell : (dir : Direction) (n : ℕ) (s : PollEvented d) → (store d dir n s).cell ≡ s.cell
  unfolding store
  store-cell read n s = refl
  store-cell write n s = refl

  pub store-io : (dir : Direction) (n : ℕ) (s : PollEvented d) → (store d dir n s).io ≡ s.io
  unfolding store
  store-io read n s = refl
  store-io write n s = refl

  pub store-Live :
      (dir : Direction) (n : ℕ) (s : PollEvented d) (io : ScheduledIo d)
      → Attached d s.cell io
      → Attached d (store d dir n s).cell io
  store-Live dir n s io a = subst (λ x. Attached d x io) (sym (store-cell dir n s)) a

  -- The outcomes of a poll that keep the contract: flags, or `Pending` with a task that hears of the
  -- object again. The object keeps its source and stays registered.
  abbrev pub Settles :
      Option d.Source
      → Waker
      → Direction
      → Option (Outcome (Poll (IoResult d.Ready) × PollEvented d))
      → Type 0
  Settles held w dir o =
      (s : PollEvented d) × (s.io ≡ held)
      × (((flags : d.Ready) × (o ≡ some (done (ready (ok flags), s))) × Live s)
          ⊎ ((o ≡ some (done (pending, s))) × Hears w dir s))
