-- ===== src/Reactor/Turn.antt =====
-- src/reactor/mod.rs: `Reactor::new`, and `Reactor::poll` and `turn`, one round of the event loop.
use romio.Base.{
  ℕ, Option, List, [], ◌∷◌, ◌++◌, ◌==◌, if◌then◌else◌, Waker, IoResult, ok, err, Outcome, done,
  panics,
}
use romio.Deps.{Deps}
use romio.Deps.Kernel.{PollOpt, Event}
use romio.Reactor.State.{Inner, token_wakeup}
use romio.Reactor.Platform.{Platform}
use romio.Reactor.Dispatch.{dispatch}

-- The reactor and the operating system, with the tasks woken so far, the latest last.
pub record Loop (d : Deps) : Type 0 where
  pub inner : Inner d
  pub os : d.Os
  pub woken : List Waker

module _ (d : Deps) where
  open d use {Os, readable, poll_new, poll_register, registration_new2, empty_slab}

  unfoldable pub new : Os → IoResult (Inner d) × Os
  new os =
      let (io_res, os₁) = poll_new os in
      elim io_res [
        | err e ↦ (err e, os₁)
        | ok io ↦
            let (pair, os₂) = registration_new2 os₁ in
            let (res, os₃) = poll_register io pair.0 token_wakeup readable PollOpt.level os₂ in
            (
              elim res [
                | err e ↦ err e
                | ok _ ↦ ok (record {
                  io = io;
                  next_aba_guard = 0;
                  io_dispatch = empty_slab;
                  wakeup = pair.1;
                })
              ],
              os₃,
            )
      ]

  -- `HandlePriv::wakeup`, on the reactor that the handle reaches; `unwrap` panics on an error.
  unfoldable pub wakeup : Inner d → Os → Outcome Os
  wakeup inner os =
      let (res, os') = d.set_readiness inner.wakeup d.readable os in
      elim res [ ok _ ↦ done os' | err e ↦ panics ]

module _ (d : Deps) (p : Platform) where
  open d use {Ready, empty, set_readiness, poll_wait}

  -- The body of the `for` loop of `poll`.
  unfoldable pub handle_event : Event Ready → Loop d → Outcome (Loop d)
  handle_event event s =
      if event.token == token_wakeup
      then (let (res, os') = set_readiness s.inner.wakeup empty s.os in
          elim res [ ok _ ↦ done (record s { os = os' }) | err e ↦ panics ])
      else (let (inner', woken) = dispatch d p event.token event.readiness s.inner in
          done (record s { inner = inner'; woken = s.woken ++ woken }))

  unfoldable pub handle_events : List (Event Ready) → Loop d → Outcome (Loop d)
  handle_events [] s = done s
  handle_events (event ∷ events) s = elim (handle_event event s) [
    | done s' ↦ handle_events events s'
    | panics ↦ panics
  ]

  -- `Reactor::poll`; `turn` returns its result.
  unfoldable pub poll : Option ℕ → Loop d → Outcome (IoResult (Unit {0}) × Loop d)
  poll max_wait s =
      let (res, os') = poll_wait s.inner.io max_wait s.os in
      elim res [
        | err e ↦ done (err e, record s { os = os' })
        | ok events ↦ elim (handle_events events (record s { os = os' })) [
          | done s' ↦ done (ok tt, s')
          | panics ↦ panics
        ]
      ]

  unfoldable pub turn : Option ℕ → Loop d → Outcome (IoResult (Unit {0}) × Loop d)
  turn max_wait s = poll max_wait s
