-- ===== src/Background/Blocked.antt =====
-- src/reactor/background.rs, `run`: the thread while another one works, blocked in a turn of its loop or
-- not.
use romio.Base.{
  ℕ, ◌≤◌, ◌≡◌, refl, Bool, true, false, Bool-cases, inl, inr, ◌⊎◌, Option, none, List, [], ◌∷◌,
  ◌++◌, arith, IoResult, ok, err, Outcome, done, panics, subst, sym, ◌==◌, if◌then◌else◌,
}
use romio.Deps.{Deps}
use romio.Deps.Kernel.{Event}
use romio.Reactor.State.{Inner, token_wakeup}
use romio.Reactor.Platform.{Platform}
use romio.Reactor.Dispatch.{dispatch}
use romio.Reactor.Turn.{Loop, handle_event, handle_events, poll, turn}
use romio.Background.State.{Site, shutdown_at_once, shutdown_complete}
use romio.Background.Thread.{stops, drop_step, store_step, wake_step}

-- An operating system whose calls succeed. `blocks`: a `Poll::poll` of this reactor does not return
-- yet. It returns once the `SetReadiness` of the reactor's wake-up is readable.
pub record Working (d : Deps) : Type 1 where
  pub Fine : d.Os → Type 0
  pub blocks : Inner d → d.Os → Bool
  pub poll_wait-Fine :
      (io : ℕ) (max_wait : Option ℕ) (os : d.Os)
      → Fine os
      → (events : List (Event d.Ready)) × (os' : d.Os) × (d.poll_wait io max_wait os
          ≡ (ok events, os'))
        × Fine os'
  pub set_readiness-Fine :
      (n : ℕ) (flags : d.Ready) (os : d.Os)
      → Fine os
      → (os' : d.Os) × (d.set_readiness n flags os ≡ (ok tt, os')) × Fine os'
  pub set_readiness-returns :
      (inner : Inner d) (os os' : d.Os)
      → d.set_readiness inner.wakeup d.readable os ≡ (ok tt, os')
      → blocks inner os' ≡ false

module _ (d : Deps) (p : Platform) (sys : Working d) where
  open sys use {Fine, blocks}

  -- What the thread does with the result of a turn: it unwinds, with the reactor, or it comes to the
  -- head of its loop, and goes on to its end or to the next turn.
  abbrev pub end_turn : Outcome (IoResult (Unit {0}) × Loop d) → Site d → Site d
  end_turn panics s = drop_step d s
  end_turn (done (err e, l)) s = drop_step d (record s { loop = l })
  end_turn (done (ok _, l)) s =
      if stops d (record s { loop = l })
      then wake_step d (store_step d (drop_step d (record s { loop = l })))
      else record s { loop = l }

  -- The thread, in a turn of its loop, as far as it gets: the turn ends unless mio blocks.
  abbrev pub run_on : Site d → Site d
  run_on s =
      if s.alive
      then (if blocks s.loop.inner s.loop.os then s else end_turn (turn d p none s.loop) s)
      else s

  handle_event-Fine :
      (event : Event d.Ready) (l : Loop d)
      → Fine l.os
      → (l' : Loop d) × (handle_event d p event l ≡ done l') × Fine l'.os
  unfolding handle_event
  handle_event-Fine event l fine = elim (Bool-cases (event.token == token_wakeup)) [
    | inl ours ↦
        let (os', reset, fine') = sys.set_readiness-Fine l.inner.wakeup d.empty l.os fine in
        (record l { os = os' }, ground (arith, ours, reset), fine')
    | inr other ↦ (
      record l {
        inner = (dispatch d p event.token event.readiness l.inner).0;
        woken = l.woken ++ (dispatch d p event.token event.readiness l.inner).1;
      },
      ground (arith, other),
      fine,
    )
  ]

  handle_events-Fine :
      (events : List (Event d.Ready)) (l : Loop d)
      → Fine l.os
      → (l' : Loop d) × (handle_events d p events l ≡ done l') × Fine l'.os
  unfolding handle_events
  handle_events-Fine [] l fine = (l, refl, fine)
  handle_events-Fine (event ∷ events) l fine =
      let (l₁, first, fine₁) = handle_event-Fine event l fine in
      let (l₂, rest, fine₂) = handle_events-Fine events l₁ fine₁ in
      (l₂, ground (arith, first, rest), fine₂)

  turn-Fine :
      (l : Loop d) → Fine l.os → (l' : Loop d) × (turn d p none l ≡ done (ok tt, l')) × Fine l'.os
  unfolding turn poll
  turn-Fine l fine =
      let (events, os, waited, fine₁) = sys.poll_wait-Fine l.inner.io none l.os fine in
      let (l', handled, fine₂) = handle_events-Fine events (record l { os = os }) fine₁ in
      (l', ground (arith, waited, handled), fine₂)

  -- The reactor runs, and a turn does not block if the word tells the thread to stop; or the thread is
  -- at its end.
  abbrev pub Sane : Site d → Type 0
  Sane s =
      ((s.alive ≡ true)
        × (s.shared.shutdown ≤ shutdown_at_once)
        × Fine s.loop.os
        × ((s.shared.shutdown == shutdown_at_once) ≡ false
            ⊎ (blocks s.loop.inner s.loop.os ≡ false)))
      ⊎ ((s.alive ≡ false) × (s.shared.shutdown ≡ shutdown_complete))

  -- A thread that runs and is not blocked goes through a turn.
  run_on-turn :
      (s : Site d)
      → s.alive ≡ true
      → Fine s.loop.os
      → blocks s.loop.inner s.loop.os ≡ false
      → (l : Loop d) × Fine l.os × (run_on s ≡ end_turn (done (ok tt, l)) s)
  run_on-turn s runs fine free =
      let (l, turned, fine') = turn-Fine s.loop fine in (l, fine', rw (runs, free, turned) refl)

  -- At the head of its loop, with a word that does not stop it, the thread goes on.
  goes-Sane :
      (s : Site d)
      → s.alive ≡ true
      → s.shared.shutdown ≤ shutdown_at_once
      → Fine s.loop.os
      → stops d s ≡ false
      → Sane s
  unfolding stops
  goes-Sane s runs low fine goes = inl (runs, low, fine, inl (ground (arith, goes)))

  end_turn-Sane :
      (s : Site d) (l : Loop d)
      → s.alive ≡ true
      → s.shared.shutdown ≤ shutdown_at_once
      → Fine l.os
      → Sane (end_turn (done (ok tt, l)) s)
  unfolding drop_step store_step wake_step
  end_turn-Sane s l runs low fine = elim (Bool-cases (stops d (record s { loop = l }))) [
    | inl told ↦ rw told (inr (refl, refl))
    | inr goes ↦
        let same : record s { loop = l } ≡ end_turn (done (ok tt, l)) s = rw goes refl in
        subst Sane same (goes-Sane (record s { loop = l }) runs low fine goes)
  ]

  pub run_on-Sane : (s : Site d) → Sane s → Sane (run_on s)
  run_on-Sane s (inr (gone, over)) =
      subst Sane {x = s} {y = run_on s} (ground (arith, gone)) (inr (gone, over))
  run_on-Sane s (inl (runs, low, fine, free)) = elim (Bool-cases (blocks s.loop.inner s.loop.os)) [
    | inl blocked ↦
        subst Sane {x = s} {y = run_on s} (ground (arith, runs, blocked))
          (inl (runs, low, fine, free))
    | inr awake ↦
        let (l, fine', turned) = run_on-turn s runs fine awake in
        subst Sane (sym turned) (end_turn-Sane s l runs low fine')
  ]

  end_turn_mono :
      (o : Outcome (IoResult (Unit {0}) × Loop d)) (s : Site d)
      → s.shared.shutdown ≤ (end_turn o s).shared.shutdown
  unfolding stops drop_step store_step wake_step
  end_turn_mono panics s = omega arith
  end_turn_mono (done (err e, l)) s = omega arith
  end_turn_mono (done (ok _, l)) s = ground arith

  pub run_on_mono : (s : Site d) → s.shared.shutdown ≤ (run_on s).shared.shutdown
  run_on_mono s = ground (arith, end_turn_mono (turn d p none s.loop) s)

  stops-now : (s : Site d) → s.shared.shutdown ≡ shutdown_at_once → stops d s ≡ true
  unfolding stops
  stops-now s now = ground (arith, now)

  -- At a word that stops it the thread comes to its end.
  pub run_on-ends :
      (s : Site d)
      → Sane s
      → shutdown_at_once ≤ s.shared.shutdown
      → ((run_on s).shared.shutdown ≡ shutdown_complete) × ((run_on s).alive ≡ false)
  unfolding drop_step store_step wake_step
  run_on-ends s (inr (gone, over)) told = (ground (arith, gone, over), ground (arith, gone))
  run_on-ends s (inl (runs, low, fine, inl other)) told = absurd (ground (arith, other, low, told))
  run_on-ends s (inl (runs, low, fine, inr awake)) told =
      let (l, fine', turned) = run_on-turn s runs fine awake in
      let now : stops d (record s { loop = l }) ≡ true =
        stops-now (record s { loop = l }) (omega (arith, low, told)) in
      rw (turned, now) (refl, refl)
