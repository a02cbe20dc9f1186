-- ===== src/Examples/Backgrounds.antt =====
-- The laws of the background reactor at concrete inputs.
use romio.Base.{
  ℕ, zero, suc, Option, Poll, ready, pending, ◌≡◌, ◌≢◌, ◌≤◌, refl, ◌⊎◌, inl, inr, true, false, none,
  some, [], ◌∷◌, arith, done, panics, other_error, not, ◌==◌,
}
use romio.Deps.Executor.{ExecutorApi}
use romio.Examples.Model.{model, calm}
use romio.Reactor.Platform.{unix}
use romio.Reactor.State.{read, ScheduledIo}
use romio.Reactor.Sources.{waker_of}
use romio.Reactor.Turn.{Loop, turn, poll}
use romio.Reactor.Woken.{Woken}
use romio.Background.State.{Site}
use romio.Background.Thread.{
  shutdown_now, run, stops, drop_step, store_step, wake_step, swap_now, register_step, is_shutdown,
}
use romio.Background.Machine.{
  System, thread_at, waiter_at, Reach, here, next, thread_step, waiter_step, notifies, initial,
  turned, returned, looping, unwound,
}
use romio.Background.Stops.{shutdown_now_ends, run_stops}
use romio.Background.Blocked.{Working}
use romio.Background.Liveness.{Runs, start, thread_runs, shutdown_comes_through}
use romio.Background.Shutdown.{shutdown_after_drop, unwound_never_ready}

abbrev waiting : ScheduledIo model
waiting = record { aba_guard = 0; readiness = 0; reader = some 4; writer = none }

-- A reactor with a source for which task 4 waits to read.
abbrev busy : Loop model
busy = record {
  inner = record { io = 0; next_aba_guard = 4194304; io_dispatch = some waiting ∷ []; wakeup = 0 };
  os = calm;
  woken = [];
}

abbrev running : ℕ → Site model
running word = record {
  shared = record { shutdown = word; shutdown_task = some 3 };
  loop = busy;
  alive = true;
}

shutdown_now_ends_example :
    (shutdown_now model 3 (λ s. s) (running 1) ≡ some panics)
    ⊎ ((s' : Site model) × (shutdown_now model 3 (λ s. s) (running 1) ≡ some (done s'))
        × (2 ≤ s'.shared.shutdown))
shutdown_now_ends_example = shutdown_now_ends model (λ s. s) (running 1) (λ t. omega arith)

run_stops_example :
    (s' : Site model) × (run model unix 1 (λ t. t) (running 2) ≡ some (done s'))
    × (s'.alive ≡ false)
    × (s'.shared.shutdown ≡ 3)
    × Woken 4 s'.loop.woken
unfolding waker_of
run_stops_example = run_stops model unix 0 4 (running 2) refl (inl (read, 0, waiting, refl, refl))

-- The word is set, the thread drops the reactor, the task polls, and the thread goes on to its end.
abbrev crossing : (c : System model) × Reach model unix 3 (initial model busy) c
unfolding thread_at waiter_at initial swap_now stops
crossing = (
  _,
  next
      (next
        (next
          (next (next (next (next here (notifies 0 (omega arith))) thread_step) thread_step)
            waiter_step)
          waiter_step)
        thread_step)
      thread_step,
)

shutdown_after_drop_example : (crossing.0).site.alive ≡ false
unfolding thread_at waiter_at initial swap_now stops drop_step store_step wake_step register_step
    is_shutdown
shutdown_after_drop_example = shutdown_after_drop model unix 3 busy crossing.0 crossing.1 (inr refl)

-- The first turn fails.
abbrev failing : Loop model
failing = record busy { os = record calm { refuses = true } }

abbrev failed : (c : System model) × Reach model unix 3 (initial model failing) c
failed = (_, here)

-- Then the task polls.
abbrev unwinding :
    (c : System model) × Reach model unix 3 (thread_at model unix 3 looping failed.0) c
unfolding thread_at waiter_at initial stops turned turn poll register_step is_shutdown
unwinding = (_, next (next here waiter_step) waiter_step)

unwound_never_ready_example :
    ((unwinding.0).thread ≡ unwound)
    × ((unwinding.0).site.shared.shutdown ≢ 3)
    × ((unwinding.0).waiter ≢ returned true)
unfolding initial stops turn poll
unwound_never_ready_example =
    unwound_never_ready model unix 3 failing failing (other_error "refused") failed.0 unwinding.0
      failed.1 refl refl refl unwinding.1

-- The task has polled and waits, and the word tells the thread to stop.
abbrev told : (c : System model) × Reach model unix 3 (initial model busy) c
unfolding waiter_at initial swap_now register_step is_shutdown
told = (_, next (next (next here waiter_step) waiter_step) (notifies 0 (omega arith)))

-- The thread goes on to its end.
abbrev stopped : (c : System model) × Runs model unix 3 told.0 4 c
unfolding thread_at waiter_at initial swap_now stops register_step is_shutdown
stopped = (_, thread_runs (thread_runs (thread_runs (thread_runs start))))

shutdown_comes_through_example : Woken 3 ((stopped.0).site.loop.woken)
unfolding thread_at waiter_at initial swap_now stops drop_step store_step wake_step register_step
    is_shutdown
shutdown_comes_through_example =
    shutdown_comes_through model unix 3 4 busy told.0 stopped.0 told.1 refl refl (omega arith)
      stopped.1 refl

-- An executor that polls a future as long as it takes, up to 100 times.
unfoldable polls :
    {A : Type 0} → ℕ → (Site model → Poll A × Site model) → Site model → Option (A × Site model)
polls zero future s = none
polls (suc fuel) future s =
    let (res, t) = future s in
    let rest = polls fuel future t in elim res [ ready a ↦ some (a, t) | pending ↦ rest ]

polls-ready :
    {A : Type 0} (future : Site model → Poll A × Site model) (s : Site model) (a : A)
    (t : Site model)
    → future s ≡ (ready a, t)
    → polls 100 future s ≡ some (a, t)
unfolding polls
polls-ready future s a t e = ground (arith, e)

abbrev executor : ExecutorApi (Site model)
executor = record { block_on = polls 100; block_on-ready = polls-ready }

-- An operating system that works, in which a turn blocks until the wake-up is readable.
abbrev working : Working model
working = record {
  Fine = λ os. os.refuses ≡ false;
  blocks = λ inner os. not os.rung;
  poll_wait-Fine =
      λ io max_wait os fine. (os.events, record os { events = [] }, ground (arith, fine), fine);
  set_readiness-Fine = λ n flags os fine. (record os { rung = not (flags == 0) }, refl, fine);
  set_readiness-returns = λ inner os os' set. ground (arith, set);
}
