-- ===== src/Background/Machine.antt =====
-- src/reactor/background.rs: the thread of the reactor and a task that polls the `Shutdown` future,
-- one access of the shared state at a time.
use romio.Base.{
  ℕ, Bool, true, ◌<◌, none, if◌then◌else◌, Waker, IoResult, ok, err, Outcome, done, panics,
}
use romio.Deps.{Deps}
use romio.Reactor.State.{Inner}
use romio.Reactor.Platform.{Platform}
use romio.Reactor.Turn.{Loop, turn}
use romio.Background.State.{Site, shutdown_at_once}
use romio.Background.Thread.{
  stops, drop_step, store_step, wake_step, register_step, is_shutdown, swap_now,
}

-- Where `run` stands: in its loop, after the `break`, after the drop of the reactor, after the store
-- of `SHUTDOWN`, at its end, or unwound by a panic.
pub data Thread : Type 0 where
  looping broken dropped stored finished unwound : Thread

-- Where `Shutdown::poll` stands: before the registration of the waker, before it loads the word, or
-- returned, with whether it is ready.
pub data Waiter : Type 0 where
  starting registered : Waiter
  returned : Bool → Waiter

pub record System (d : Deps) : Type 0 where
  pub site : Site d
  pub thread : Thread
  pub waiter : Waiter

module _ (d : Deps) (p : Platform) (waker : Waker) where
  -- A turn of the loop: the reactor unwinds with the thread that panics.
  unfoldable pub turned : Outcome (IoResult (Unit {0}) × Loop d) → System d → System d
  turned panics c = record c { thread = unwound; site = drop_step d c.site }
  turned (done (err e, l)) c = record c {
    thread = unwound;
    site = drop_step d (record (c.site) { loop = l });
  }
  turned (done (ok _, l)) c = record c { site = record (c.site) { loop = l } }

  -- One access of the thread.
  unfoldable pub thread_at : Thread → System d → System d
  thread_at looping c =
      if stops d c.site then record c { thread = broken } else turned (turn d p none c.site.loop) c
  thread_at broken c = record c { site = drop_step d c.site; thread = dropped }
  thread_at dropped c = record c { site = store_step d c.site; thread = stored }
  thread_at stored c = record c { site = wake_step d c.site; thread = finished }
  thread_at finished c = c
  thread_at unwound c = c

  -- One access of the task; a poll that has returned may be followed by another.
  unfoldable pub waiter_at : Waiter → System d → System d
  waiter_at starting c = record c { site = register_step d waker c.site; waiter = registered }
  waiter_at registered c = record c { waiter = returned (is_shutdown d c.site) }
  waiter_at (returned _) c = record c { waiter = starting }

  -- Any thread may be next. `notifies` is the `compare_and_swap` of a `shutdown_now`, `others` what
  -- other threads do to the reactor and the operating system.
  pub data Step (c : System d) : System d → Type 0 where
    thread_step : Step c (thread_at c.thread c)
    waiter_step : Step c (waiter_at c.waiter c)
    notifies :
        (curr : ℕ)
        → curr < shutdown_at_once
        → Step c (record c { site = (swap_now d curr c.site).1 })
    others :
        (inner : Inner d) (os : d.Os)
        → Step c (record c {
          site = record (c.site) { loop = record (c.site.loop) { inner = inner; os = os } };
        })

  pub data Reach (s : System d) : System d → Type 0 where
    here : Reach s s
    next : {t u : System d} → Reach s t → Step t u → Reach s u

-- The thread runs, and the future has not been polled.
unfoldable pub initial : (d : Deps) → Loop d → System d
initial d loop = record {
  site = record {
    shared = record { shutdown = 0; shutdown_task = d.new_waker };
    loop = loop;
    alive = true;
  };
  thread = looping;
  waiter = starting;
}
