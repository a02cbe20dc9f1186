-- ===== src/Reactor/Waits.antt =====
-- src/reactor/mod.rs: what an event does to a task that waits at a source.
use romio.Base.{
  ℕ, ◌<◌, ◌^◌, ◌≡◌, refl, Bool, true, false, ◌&&◌, ◌||◌, Bool-cases, inl, inr, ◌⊎◌, some, List, [],
  ◌∷◌, ◌++◌, arith, ◌==◌, Waker,
}
use romio.Base.Bits.{usize_bits}
use romio.Deps.{Deps}
use romio.Deps.Kernel.{Event}
use romio.Reactor.State.{Direction, read, write, ScheduledIo}
use romio.Reactor.Platform.{Platform}
use romio.Reactor.Tokens.{source_token}
use romio.Reactor.Dispatch.{dispatch, dispatch_io, set_flags, take_reader, take_writer, wake_option}
use romio.Reactor.Sources.{waker_of}
use romio.Reactor.Turn.{Loop}
use romio.Reactor.Valid.{IsValid, dispatch-IsValid}
use romio.Reactor.Delivery.{dispatch-live}
use romio.Reactor.Woken.{Woken, Woken-append_left, Woken-append_right, Woken-wake_option}
use romio.Reactor.Registration.Flags.{wakes}
use romio.Reactor.Events.{dispatch-other, dispatch_io-guard}

module _ (d : Deps) (p : Platform) where
  open d use {get, Ready, take_waker}

  -- An event with this token wakes the task of the direction.
  unfoldable pub rings : ℕ → Direction → List (Event Ready) → Bool
  rings token dir [] = false
  rings token dir (event ∷ events) =
      (event.token == token && wakes d p dir event.readiness) || rings token dir events

  -- The task waits at the source for the direction.
  abbrev pub Waits : Waker → Direction → ScheduledIo d → Type 0
  Waits w dir io = (take_waker (waker_of d dir io)).0 ≡ some w

  pub dispatch_io-Woken :
      (w : Waker) (dir : Direction) (ready : Ready) (io : ScheduledIo d)
      → wakes d p dir ready ≡ true
      → Waits w dir io
      → Woken w
          (wake_option (dispatch_io d p ready io).1 ++ wake_option (dispatch_io d p ready io).2)
  unfolding dispatch_io set_flags take_reader take_writer waker_of
  dispatch_io-Woken w read ready io hit waits =
      Woken-append_left w _ _
        (Woken-wake_option w (dispatch_io d p ready io).1 (ground (arith, hit, waits)))
  dispatch_io-Woken w write ready io hit waits =
      Woken-append_right w (wake_option (dispatch_io d p ready io).1) _
        (Woken-wake_option w (dispatch_io d p ready io).2 (ground (arith, hit, waits)))

  pub dispatch_io-Waits :
      (w : Waker) (dir : Direction) (ready : Ready) (io : ScheduledIo d)
      → wakes d p dir ready ≡ false
      → Waits w dir io
      → Waits w dir (dispatch_io d p ready io).0
  unfolding dispatch_io set_flags take_reader take_writer waker_of
  dispatch_io-Waits w read ready io miss waits = ground (arith, miss, waits)
  dispatch_io-Waits w write ready io miss waits = ground (arith, miss, waits)

  -- After an event the task was woken, or the event did not ring and it still waits.
  abbrev pub After : Waker → Direction → ℕ → ScheduledIo d → Bool → Loop d → Type 0
  After w dir k io rang s =
      Woken w s.woken
      ⊎ ((rang ≡ false)
          × IsValid d s.inner
          × ((io' : ScheduledIo d) × (get k s.inner.io_dispatch ≡ some io')
              × (io'.aba_guard ≡ io.aba_guard)
              × Waits w dir io'))

  pub dispatch-After :
      (w : Waker) (dir : Direction) (k : ℕ) (event : Event Ready) (s : Loop d) (io : ScheduledIo d)
      → event.token < 2 ^ usize_bits
      → IsValid d s.inner
      → get k s.inner.io_dispatch ≡ some io
      → Waits w dir io
      → After w dir k io
          (event.token == source_token io.aba_guard k && wakes d p dir event.readiness)
          (record s {
            inner = (dispatch d p event.token event.readiness s.inner).0;
            woken = s.woken ++ (dispatch d p event.token event.readiness s.inner).1;
          })
  dispatch-After w dir k event s io word v there waits =
      let token = source_token io.aba_guard k in
      let live = dispatch-live d p k event.readiness s.inner io v there in
      let valid = dispatch-IsValid d p event.token event.readiness s.inner v in
      elim (Bool-cases (event.token == token)) [
        | inl same ↦
            let hit : event.token ≡ token = ground (arith, same) in
            elim (Bool-cases (wakes d p dir event.readiness)) [
              | inl rang ↦ inl (
                  Woken-append_right w s.woken (dispatch d p event.token event.readiness s.inner).1
                    (rw (hit, live.1) (dispatch_io-Woken w dir event.readiness io rang waits)))
              | inr quiet ↦ inr (
                ground (arith, same, quiet),
                valid,
                (
                  (dispatch_io d p event.readiness io).0,
                  rw hit live.0,
                  dispatch_io-guard d p event.readiness io,
                  dispatch_io-Waits w dir event.readiness io quiet waits,
                ),
              )
            ]
        | inr other ↦ inr (
          ground (arith, other),
          valid,
          (
            io,
            dispatch-other d p k event.token event.readiness s.inner io word there
                (ground (arith, other)),
            refl,
            waits,
          ),
        )
      ]
