-- ===== src/Background/Stops.antt =====
-- src/reactor/background.rs: `shutdown_now` ends, and the thread stops at the word that it leaves.
use romio.Base.{
  Outcome-cases, ℕ, suc, ◌≤◌, ◌<◌, ◌≡◌, refl, false, Bool-cases, inl, inr, ◌⊎◌, Option, some, subst,
  arith, ltb, ◌==◌, ◌++◌, List, [], ◌∷◌, Waker, Outcome, done, panics,
}
use romio.Deps.{Deps}
use romio.Reactor.Platform.{Platform}
use romio.Reactor.State.{Direction, read, write, ScheduledIo, Inner}
use romio.Reactor.Woken.{Woken, Woken-append_left, Woken-append_right, Woken-wake_option}
use romio.Reactor.Sources.{waker_of, set_waker, wake_io, wake_all, drop_inner}
use romio.Reactor.Turn.{wakeup}
use romio.Background.State.{Site, shutdown_at_once, shutdown_complete}
use romio.Background.Thread.{
  stops, drop_step, store_step, wake_step, wake_reactor, swap_now, notify_loop, shutdown_now,
  run_loop, run,
}

module _ (d : Deps) where
  -- What `shutdown_now` ends with: a panic of the wake-up, or a word that stops the thread.
  abbrev pub Stopping : Option (Outcome (Site d)) → Type 0
  Stopping r =
      (r ≡ some panics)
      ⊎ ((s : Site d) × (r ≡ some (done s)) × (shutdown_at_once ≤ s.shared.shutdown))

  wake_reactor-Stopping :
      (s : Site d) → s.shared.shutdown ≡ shutdown_at_once → Stopping (some (wake_reactor d s))
  unfolding wake_reactor
  wake_reactor-Stopping s at = elim (Bool-cases s.alive) [
    | inl live ↦ elim (Outcome-cases (wakeup d s.loop.inner s.loop.os)) [
      | inl bad ↦ inl (rw (live, bad) refl)
      | inr (os', good) ↦ inr (
        record s { loop = record (s.loop) { os = os' } },
        ground (arith, live, good),
        omega (arith, at),
      )
    ]
    | inr dead ↦ inr (s, rw dead refl, omega (arith, at))
  ]

  notify_loop-high :
      (fuel : ℕ) (others : Site d → Site d) (curr : ℕ) (s : Site d)
      → shutdown_at_once ≤ curr
      → curr ≤ s.shared.shutdown
      → Stopping (notify_loop d (suc fuel) others curr s)
  unfolding notify_loop
  notify_loop-high fuel others curr s high kept = inr (s, ground arith, omega arith)

  notify_loop-suc :
      (fuel : ℕ) (others : Site d → Site d) (curr : ℕ) (s : Site d)
      → curr < shutdown_at_once
      → ((act : ℕ) (s' : Site d)
          → curr < act
          → act ≤ s'.shared.shutdown
          → Stopping (notify_loop d fuel others act s'))
      → curr ≤ (others s).shared.shutdown
      → Stopping (notify_loop d (suc fuel) others curr s)
  unfolding notify_loop swap_now
  notify_loop-suc fuel others curr s low ends kept =
      elim (Bool-cases ((others s).shared.shutdown == curr)) [
        | inl same ↦
            subst Stopping (ground arith)
              (wake_reactor-Stopping (swap_now d curr (others s)).1 (ground arith))
        | inr moved ↦
            subst Stopping (ground arith)
              (ends (others s).shared.shutdown (others s) (ground arith) (omega arith))
      ]

  -- While `shutdown_now` runs, and if no other thread lowers the word, its loop ends within three
  -- rounds, with a word of at least `SHUTDOWN_NOW` or a panic of the wake-up.
  pub shutdown_now_ends :
      (others : Site d → Site d) (s : Site d)
      → ((t : Site d) → t.shared.shutdown ≤ (others t).shared.shutdown)
      → (shutdown_now d 3 others s ≡ some panics)
        ⊎ ((s' : Site d) × (shutdown_now d 3 others s ≡ some (done s'))
            × (shutdown_at_once ≤ s'.shared.shutdown))
  unfolding shutdown_now
  shutdown_now_ends others s mono = from_two s.shared.shutdown s (omega arith)
    where
      one :
          (curr : ℕ) (t : Site d)
          → 1 < curr
          → curr ≤ t.shared.shutdown
          → Stopping (notify_loop d 1 others curr t)
      one curr t high kept = notify_loop-high 0 others curr t (omega arith) kept

      two :
          (curr : ℕ) (t : Site d)
          → 0 < curr
          → curr ≤ t.shared.shutdown
          → Stopping (notify_loop d 2 others curr t)
      two curr t high kept = elim (Bool-cases (ltb curr shutdown_at_once)) [
        | inl low ↦
            notify_loop-suc 1 others curr t (ground arith)
              (λ act s' up le. one act s' (omega arith) le) (omega (arith, mono t))
        | inr up ↦ notify_loop-high 1 others curr t (ground arith) kept
      ]

      from_two :
          (curr : ℕ) (t : Site d)
          → curr ≤ t.shared.shutdown
          → Stopping (notify_loop d 3 others curr t)
      from_two curr t kept = elim (Bool-cases (ltb curr shutdown_at_once)) [
        | inl low ↦
            notify_loop-suc 2 others curr t (ground arith)
              (λ act s' up le. two act s' (omega arith) le) (omega (arith, mono t))
        | inr up ↦ notify_loop-high 2 others curr t (ground arith) kept
      ]

  open d use {get}

  wake_all-append :
      (w : Waker) (before rest : List (ℕ × ScheduledIo d))
      → Woken w (wake_all d rest)
      → Woken w (wake_all d (before ++ rest))
  unfolding wake_all
  wake_all-append w [] rest h = h
  wake_all-append w ((k, io) ∷ before) rest h = Woken-append_right w (wake_io d write io).1 _ (
      Woken-append_right w (wake_io d read (wake_io d write io).0).1 _
        (wake_all-append w before rest h))

  wake_all-here :
      (w : Waker) (dir : Direction) (k : ℕ) (io : ScheduledIo d) (rest : List (ℕ × ScheduledIo d))
      → (d.take_waker (waker_of d dir io)).0 ≡ some w
      → Woken w (wake_all d ((k, io) ∷ rest))
  unfolding wake_all wake_io set_waker waker_of
  wake_all-here w write k io rest waits =
      Woken-append_left w (wake_io d write io).1 _ (Woken-wake_option w _ waits)
  wake_all-here w read k io rest waits = Woken-append_right w (wake_io d write io).1 _ (
      Woken-append_left w (wake_io d read (wake_io d write io).0).1 _ (Woken-wake_option w _ waits))

  -- The drop of a reactor wakes every task that waits at one of its sources.
  drop_inner-Woken :
      (w : Waker) (dir : Direction) (k : ℕ) (io : ScheduledIo d) (inner : Inner d)
      → get k inner.io_dispatch ≡ some io
      → (d.take_waker (waker_of d dir io)).0 ≡ some w
      → Woken w (drop_inner d inner)
  unfolding drop_inner
  drop_inner-Woken w dir k io inner there waits =
      let (before, after, split) = d.iter-get inner.io_dispatch k io there in
      rw split (wake_all-append w before ((k, io) ∷ after) (wake_all-here w dir k io after waits))

module _ (d : Deps) (p : Platform) where
  open d use {get}

  -- The task waits at a source of the reactor, or for the shutdown.
  abbrev pub Pending : Waker → Site d → Type 0
  Pending w s =
      ((dir : Direction) × (k : ℕ) × (io : ScheduledIo d) × (get k s.loop.inner.io_dispatch
          ≡ some io)
        × ((d.take_waker (waker_of d dir io)).0 ≡ some w))
      ⊎ ((d.take_waker s.shared.shutdown_task).0 ≡ some w)

  ended-Woken :
      (w : Waker) (s : Site d)
      → Pending w s
      → Woken w (wake_step d (store_step d (drop_step d s))).loop.woken
  unfolding drop_step store_step wake_step
  ended-Woken w s (inl (dir, k, io, there, waits)) =
      Woken-append_left w (s.loop.woken ++ drop_inner d s.loop.inner) _ (
        Woken-append_right w s.loop.woken _
          (drop_inner-Woken d w dir k io s.loop.inner there waits))
  ended-Woken w s (inr waits) =
      Woken-append_right w (s.loop.woken ++ drop_inner d s.loop.inner) _
        (Woken-wake_option w _ waits)

  -- If the word is `SHUTDOWN_NOW` when the thread loads it, and nobody is at work after that, the
  -- thread stops without another turn: the reactor is dropped and the word is `SHUTDOWN`. Any task that
  -- waits at a source of the reactor, under any key and for either direction, has been woken then,
  -- and so has a task whose waker is registered with the `Shutdown` future.
  pub run_stops :
      (fuel : ℕ) (w : Waker) (s : Site d)
      → s.shared.shutdown ≡ shutdown_at_once
      → Pending w s
      → (s' : Site d) × (run d p (suc fuel) (λ t. t) s ≡ some (done s'))
        × (s'.alive ≡ false)
        × (s'.shared.shutdown ≡ shutdown_complete)
        × Woken w s'.loop.woken
  unfolding run run_loop stops drop_step store_step wake_step
  run_stops fuel w s now waits =
      (wake_step d (store_step d (drop_step d s)), ground arith, refl, refl, ended-Woken w s waits)
