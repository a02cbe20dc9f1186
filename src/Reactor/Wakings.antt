-- ===== src/Reactor/Wakings.antt =====
-- src/reactor/mod.rs: whom a turn of the event loop wakes.
use romio.Base.{
  Outcome-cases, ℕ, ◌<◌, ◌^◌, ◌≡◌, refl, ◌∙◌, subst, true, false, ◌&&◌, Bool-cases, inl, inr, ◌⊎◌,
  Option, some, List, [], ◌∷◌, ◌++◌, arith, ◌==◌, Waker, ok, done,
}
use romio.Base.Bits.{usize_bits}
use romio.Deps.{Deps}
use romio.Deps.Kernel.{Event}
use romio.Reactor.State.{Direction, ScheduledIo, Inner, token_wakeup}
use romio.Reactor.Platform.{Platform, mask}
use romio.Reactor.Tokens.{source_token}
use romio.Reactor.Tokens.Packing.{source_token-ne-wakeup}
use romio.Reactor.Dispatch.{dispatch}
use romio.Reactor.Turn.{Loop, handle_event, handle_events, poll, turn}
use romio.Reactor.Valid.{IsValid}
use romio.Reactor.Woken.{Woken, Woken-append_left}
use romio.Reactor.Registration.Flags.{has, wakes, wakes-mask}
use romio.Reactor.Waits.{rings, Waits, After, dispatch-After}
use romio.Reactor.Events.{AreWords, sent}

module _ (d : Deps) (p : Platform) where
  open d use {get, Ready, take_waker}

  handle_event-After :
      (w : Waker) (dir : Direction) (k : ℕ) (event : Event Ready) (s s' : Loop d)
      (io : ScheduledIo d)
      → event.token < 2 ^ usize_bits
      → IsValid d s.inner
      → get k s.inner.io_dispatch ≡ some io
      → Waits d p w dir io
      → handle_event d p event s ≡ done s'
      → After d p w dir k io
          (event.token == source_token io.aba_guard k && wakes d p dir event.readiness)
          s'
  unfolding handle_event
  handle_event-After w dir k event s s' io word v there waits e =
      let rang = event.token == source_token io.aba_guard k && wakes d p dir event.readiness in
      elim (Bool-cases (event.token == token_wakeup)) [
        | inr other ↦
            let after : Loop d = record s {
              inner = (dispatch d p event.token event.readiness s.inner).0;
              woken = s.woken ++ (dispatch d p event.token event.readiness s.inner).1;
            } in
            let same : after ≡ s' = ground (arith, other, e) in
            subst (After d p w dir k io rang) same
              (dispatch-After d p w dir k event s io word v there waits)
        | inl ours ↦
            let (below, entry) = v.entries k io there in
            let same : s.inner ≡ s'.inner = ground (arith, ours, e) in
            let missed : rang ≡ false =
              ground (arith, ours, source_token-ne-wakeup io.aba_guard k entry.guard below) in
            inr (
              missed,
              subst (IsValid d) same v,
              (io, subst (λ (x : Inner d). get k x.io_dispatch ≡ some io) same there, refl, waits),
            )
      ]

  handle_event-Woken :
      (w : Waker) (event : Event Ready) (s s' : Loop d)
      → Woken w s.woken
      → handle_event d p event s ≡ done s'
      → Woken w s'.woken
  unfolding handle_event
  handle_event-Woken w event s s' h e = elim (Bool-cases (event.token == token_wakeup)) [
    | inr other ↦
        let same : s.woken ++ (dispatch d p event.token event.readiness s.inner).1 ≡ s'.woken =
          ground (arith, other, e) in
        subst (Woken w) same (Woken-append_left w s.woken _ h)
    | inl ours ↦ let same : s.woken ≡ s'.woken = ground (arith, ours, e) in subst (Woken w) same h
  ]

  handle_events-Woken :
      (w : Waker) (events : List (Event Ready)) (s s' : Loop d)
      → Woken w s.woken
      → handle_events d p events s ≡ done s'
      → Woken w s'.woken
  unfolding handle_events
  handle_events-Woken w [] s s' h e =
      let same : s ≡ s' = ground (arith, e) in subst (λ (x : Loop d). Woken w x.woken) same h
  handle_events-Woken w (event ∷ events) s s' h e =
      elim (Outcome-cases (handle_event d p event s)) [
        | inl bad ↦ absurd (ground (arith, bad, e))
        | inr (s₁, first) ↦
            handle_events-Woken w events s₁ s' (handle_event-Woken w event s s₁ h first)
              (ground (arith, first, e))
      ]

  handle_events-After :
      (w : Waker) (dir : Direction) (k : ℕ) (events : List (Event Ready)) (s s' : Loop d)
      (io : ScheduledIo d)
      → AreWords d p events
      → IsValid d s.inner
      → get k s.inner.io_dispatch ≡ some io
      → Waits d p w dir io
      → handle_events d p events s ≡ done s'
      → After d p w dir k io (rings d p (source_token io.aba_guard k) dir events) s'
  unfolding handle_events rings
  handle_events-After w dir k [] s s' io words v there waits e =
      let same : s ≡ s' = ground (arith, e) in
      subst (After d p w dir k io false) same (inr (refl, v, (io, there, refl, waits)))
  handle_events-After w dir k (event ∷ events) s s' io (word, words) v there waits e =
      elim (Outcome-cases (handle_event d p event s)) [
        | inl bad ↦ absurd (ground (arith, bad, e))
        | inr (s₁, first) ↦
            let rest : handle_events d p events s₁ ≡ done s' = ground (arith, first, e) in
            elim (handle_event-After w dir k event s s₁ io word v there waits first) [
              | inl woken ↦ inl (handle_events-Woken w events s₁ s' woken rest)
              | inr (missed, v₁, (io₁, there₁, guard₁, waits₁)) ↦
                  elim (handle_events-After w dir k events s₁ s' io₁ words v₁ there₁ waits₁ rest) [
                    | inl woken ↦ inl woken
                    | inr (quiet, v₂, (io₂, there₂, guard₂, waits₂)) ↦ inr (
                      ground (arith, missed, quiet, guard₁),
                      v₂,
                      (io₂, there₂, guard₂ ∙ guard₁, waits₂),
                    )
                  ]
            ]
      ]

  -- An event with a flag that the direction looks for wakes the direction.
  sent-rings :
      (dir : Direction) (token i : ℕ) (events : List (Event Ready))
      → has d (mask d p dir) i ≡ true
      → sent d p token events i ≡ true
      → rings d p token dir events ≡ true
  unfolding sent rings
  sent-rings dir token i [] looks sends = sends
  sent-rings dir token i (event ∷ events) looks sends =
      elim (Bool-cases (event.token == token && has d event.readiness i)) [
        | inl hit ↦ ground (arith, hit, wakes-mask d p dir event.readiness i, looks)
        | inr miss ↦ ground (arith, miss, sends, sent-rings dir token i events looks)
      ]

  turn-After :
      (w : Waker) (dir : Direction) (max_wait : Option ℕ) (events : List (Event Ready)) (os : d.Os)
      (k : ℕ) (s s' : Loop d) (io : ScheduledIo d)
      → d.poll_wait s.inner.io max_wait s.os ≡ (ok events, os)
      → AreWords d p events
      → IsValid d s.inner
      → get k s.inner.io_dispatch ≡ some io
      → Waits d p w dir io
      → turn d p max_wait s ≡ done (ok tt, s')
      → After d p w dir k io (rings d p (source_token io.aba_guard k) dir events) s'
  unfolding turn poll
  turn-After w dir max_wait events os k s s' io waited words v there waits e =
      handle_events-After w dir k events (record s { os = os }) s' io words v there waits
        (ground (arith, waited, e))

  -- An event with the source's token and a flag that the direction looks for wakes the task.
  pub turn_serves :
      (w : Waker) (dir : Direction) (max_wait : Option ℕ) (events : List (Event Ready)) (os : d.Os)
      (k i : ℕ) (s s' : Loop d) (io : ScheduledIo d)
      → d.poll_wait s.inner.io max_wait s.os ≡ (ok events, os)
      → AreWords d p events
      → IsValid d s.inner
      → get k s.inner.io_dispatch ≡ some io
      → Waits d p w dir io
      → turn d p max_wait s ≡ done (ok tt, s')
      → has d (mask d p dir) i ≡ true
      → sent d p (source_token io.aba_guard k) events i ≡ true
      → Woken w s'.woken
  turn_serves w dir max_wait events os k i s s' io waited words v there waits e looks sends =
      let token = source_token io.aba_guard k in
      elim (turn-After w dir max_wait events os k s s' io waited words v there waits e) [
        | inl woken ↦ woken
        | inr (quiet, v', after) ↦
            absurd (ground (arith, quiet, sent-rings dir token i events looks sends))
      ]

  -- A turn of the event loop wakes every task that it has to, and forgets none: if `turn` returns `Ok`,
  -- from a table that is well formed and with events whose tokens are words, then a task that waits
  -- at a source for a direction has been woken, or it still waits at the source, under the same key,
  -- and no event with the source's token had a flag that `poll_ready` looks for in this direction.
  pub turn_wakes :
      (w : Waker) (dir : Direction) (max_wait : Option ℕ) (events : List (Event Ready)) (os : d.Os)
      (k : ℕ) (s s' : Loop d) (io : ScheduledIo d)
      → d.poll_wait s.inner.io max_wait s.os ≡ (ok events, os)
      → AreWords d p events
      → IsValid d s.inner
      → get k s.inner.io_dispatch ≡ some io
      → Waits d p w dir io
      → turn d p max_wait s ≡ done (ok tt, s')
      → Woken w s'.woken
        ⊎ (((io' : ScheduledIo d) × (get k s'.inner.io_dispatch ≡ some io') × Waits d p w dir io')
            × ((i : ℕ)
                → (has d (mask d p dir) i && sent d p (source_token io.aba_guard k) events i)
                  ≡ false))
  turn_wakes w dir max_wait events os k s s' io waited words v there waits e =
      let token = source_token io.aba_guard k in
      elim (turn-After w dir max_wait events os k s s' io waited words v there waits e) [
        | inl woken ↦ inl woken
        | inr (quiet, v', (io', there', guard', waits')) ↦
            inr ((io', there', waits'), λ i. ground (arith, quiet, sent-rings dir token i events))
      ]
