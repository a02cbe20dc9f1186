-- ===== src/Background/Thread.antt =====
-- src/reactor/background.rs: `run`, the reactor's thread, and the methods of the handle. What other
-- threads do between the accesses of a loop is a function.
use romio.Base.{
  ℕ, zero, suc, Bool, true, false, ◌&&◌, ◌||◌, Option, none, some, ◌++◌, ltb, ◌==◌, if◌then◌else◌,
  Waker, Poll, ready, pending, IoResult, ok, err, Outcome, done, panics,
}
use romio.Deps.{Deps}
use romio.Reactor.Dispatch.{wake_option}
use romio.Reactor.Sources.{drop_inner, is_idle}
use romio.Reactor.Platform.{Platform}
use romio.Reactor.Turn.{Loop, turn, wakeup}
use romio.Background.State.{
  Site, Background, new_shared, shutdown_idle, shutdown_at_once, shutdown_complete,
}

module _ (d : Deps) where
  open d use {register_waker, take_waker}

  -- The tests after which the loop of `run` breaks.
  unfoldable pub stops : Site d → Bool
  stops s =
      s.shared.shutdown == shutdown_at_once
      || (s.shared.shutdown == shutdown_idle && is_idle d s.loop.inner)

  -- `drop(reactor)`
  unfoldable pub drop_step : Site d → Site d
  drop_step s = record s {
    loop = record (s.loop) { woken = s.loop.woken ++ drop_inner d s.loop.inner };
    alive = false;
  }

  -- `Background::new`: `spawned` is the result of `thread::Builder::spawn`, which drops the closure,
  -- and the reactor in it, if it fails.
  unfoldable pub new : IoResult (Unit {0}) → ℕ → Loop d → IoResult Background × Site d
  new spawned handle loop =
      let site : Site d = record { shared = new_shared d; loop = loop; alive = true } in
      elim spawned [
        | ok _ ↦ (ok (record { inner = some handle }), site)
        | err e ↦ (err e, drop_step site)
      ]

  -- `shared.shutdown.store(SHUTDOWN, SeqCst)`
  unfoldable pub store_step : Site d → Site d
  store_step s = record s { shared = record (s.shared) { shutdown = shutdown_complete } }

  -- `shared.shutdown_task.wake()`
  unfoldable pub wake_step : Site d → Site d
  wake_step s = record s {
    shared = record (s.shared) { shutdown_task = (take_waker s.shared.shutdown_task).1 };
    loop = record (s.loop) {
      woken = s.loop.woken ++ wake_option (take_waker s.shared.shutdown_task).0;
    };
  }

  -- `self.handle.wakeup()`: nothing if the reactor is gone.
  unfoldable pub wake_reactor : Site d → Outcome (Site d)
  wake_reactor s =
      if s.alive
      then elim (wakeup d s.loop.inner s.loop.os) [
        | done os' ↦ done (record s { loop = record (s.loop) { os = os' } })
        | panics ↦ panics
      ]
      else done s

  -- `compare_and_swap(curr, SHUTDOWN_NOW)`: the word that it found, and what it leaves.
  unfoldable pub swap_now : ℕ → Site d → ℕ × Site d
  swap_now curr s = (
    s.shared.shutdown,
    if s.shared.shutdown == curr
        then record s { shared = record (s.shared) { shutdown = shutdown_at_once } }
        else s,
  )

  -- The loop of `shutdown_now`, with what others do before each `compare_and_swap`.
  unfoldable pub notify_loop : ℕ → (Site d → Site d) → ℕ → Site d → Option (Outcome (Site d))
  notify_loop zero others curr s = none
  notify_loop (suc fuel) others curr s =
      let (act, s') = swap_now curr (others s) in
      let next = notify_loop fuel others act s' in
      if ltb curr shutdown_at_once
      then if act == curr then some (wake_reactor s') else next
      else some (done s)

  unfoldable pub shutdown_now : ℕ → (Site d → Site d) → Site d → Option (Outcome (Site d))
  shutdown_now fuel others s = notify_loop fuel others s.shared.shutdown s

  -- `Shutdown::poll`: the registration of the waker, and `is_shutdown`.
  unfoldable pub register_step : Waker → Site d → Site d
  register_step waker s = record s {
    shared = record (s.shared) { shutdown_task = register_waker waker s.shared.shutdown_task };
  }

  unfoldable pub is_shutdown : Site d → Bool
  is_shutdown s = s.shared.shutdown == shutdown_complete

  unfoldable pub poll_shutdown :
      (Site d → Site d) → Waker → Site d → Poll (IoResult (Unit {0})) × Site d
  poll_shutdown others waker s =
      let s' = others (register_step waker s) in
      (if is_shutdown s' then ready (ok tt) else pending, s')

module _ (d : Deps) (p : Platform) where
  -- The loop of `run`, with what others do before each load of the word. `unwrap` panics on an error.
  unfoldable pub run_loop : ℕ → (Site d → Site d) → Site d → Option (Outcome (Site d))
  run_loop zero others s = none
  run_loop (suc fuel) others s =
      let s' = others s in
      let next : Option (Outcome (Site d)) = elim (turn d p none s'.loop) [
        | panics ↦ some panics
        | done (err e, l) ↦ some panics
        | done (ok _, l) ↦ run_loop fuel others (record s' { loop = l })
      ] in
      if stops d s' then some (done s') else next

  unfoldable pub run : ℕ → (Site d → Site d) → Site d → Option (Outcome (Site d))
  run fuel others s = elim (run_loop fuel others s) [
    | none ↦ none
    | some panics ↦ some panics
    | some (done s') ↦ some (done (wake_step d (others (store_step d (others (drop_step d s'))))))
  ]
