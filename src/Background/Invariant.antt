-- ===== src/Background/Invariant.antt =====
-- src/reactor/background.rs: every access of the thread and of the waiting task keeps the invariant.
use romio.Base.{
  ℕ, ◌≡◌, refl, Bool-cases, inl, inr, arith, ◌==◌, Waker, IoResult, ok, err, Outcome, done, panics,
  ◌<◌,
}
use romio.Deps.{Deps}
use romio.Reactor.Platform.{Platform}
use romio.Reactor.Turn.{Loop}
use romio.Reactor.Woken.{Woken-append_right, Woken-wake_option}
use romio.Background.State.{shutdown_at_once}
use romio.Background.Thread.{
  stops, drop_step, store_step, wake_step, register_step, is_shutdown, swap_now,
}
use romio.Background.Machine.{
  Thread, looping, broken, dropped, stored, finished, unwound, Waiter, starting, registered,
  returned, System, turned, thread_at, waiter_at, Step, thread_step, waiter_step, notifies, others,
  Reach, here, next, initial,
}
use romio.Background.Stages.{pending_waits, end_stores, store_drops, Inv}

module _ (d : Deps) (p : Platform) (waker : Waker) where
  turned-Inv :
      (r : Outcome (IoResult (Unit {0}) × Loop d)) (c : System d)
      → c.thread ≡ looping
      → Inv d waker c
      → Inv d waker (turned d p waker r c)
  unfolding turned drop_step
  turned-Inv panics c at v = record {
    complete = ground (arith, v.complete);
    stores = ground arith;
    gone = ground arith;
    armed = ground (arith, v.armed);
    caught = ground arith;
    ready = ground (arith, v.ready);
  }
  turned-Inv (done (err e, l)) c at v = record {
    complete = ground (arith, v.complete);
    stores = ground arith;
    gone = ground arith;
    armed = ground (arith, v.armed);
    caught = ground arith;
    ready = ground (arith, v.ready);
  }
  turned-Inv (done (ok u, l)) c at v = record {
    complete = v.complete;
    stores = v.stores;
    gone = v.gone;
    armed = v.armed;
    caught = ground arith;
    ready = v.ready;
  }

  broken-Inv :
      (c : System d)
      → c.thread ≡ looping
      → Inv d waker c
      → Inv d waker (record c { thread = broken })
  broken-Inv c at v = record {
    complete = ground (arith, v.complete);
    stores = ground arith;
    gone = ground arith;
    armed = ground (arith, v.armed);
    caught = ground arith;
    ready = ground (arith, v.ready);
  }

  thread-Inv :
      (t : Thread) (c : System d)
      → c.thread ≡ t
      → Inv d waker c
      → Inv d waker (thread_at d p waker t c)
  unfolding thread_at drop_step store_step wake_step
  thread-Inv looping c at v = elim (Bool-cases (stops d c.site)) [
    | inl stop ↦ rw stop (broken-Inv c at v)
    | inr on ↦ rw on (turned-Inv _ c at v)
  ]
  thread-Inv broken c at v = record {
    complete = ground (arith, v.complete);
    stores = ground arith;
    gone = ground arith;
    armed = ground (arith, v.armed);
    caught = ground arith;
    ready = ground (arith, v.ready);
  }
  thread-Inv dropped c at v = record {
    complete = ground arith;
    stores = ground arith;
    gone = ground (arith, v.gone);
    armed = ground (arith, v.armed);
    caught = ground arith;
    ready = ground arith;
  }
  thread-Inv stored c at v = record {
    complete = ground arith;
    stores = ground (arith, v.stores);
    gone = ground (arith, v.gone);
    armed = ground arith;
    caught = λ pending end.
        Woken-append_right waker c.site.loop.woken _
          (Woken-wake_option waker _ (v.armed (pending_waits c.waiter pending) (ground arith)));
    ready = ground arith;
  }
  thread-Inv finished c at v = v
  thread-Inv unwound c at v = v

  waiter-Inv :
      (w : Waiter) (c : System d)
      → c.waiter ≡ w
      → Inv d waker c
      → Inv d waker (waiter_at d p waker w c)
  unfolding waiter_at register_step is_shutdown
  waiter-Inv starting c at v = record {
    complete = v.complete;
    stores = v.stores;
    gone = v.gone;
    armed = λ waits open_end. d.take-register waker c.site.shared.shutdown_task;
    caught = ground arith;
    ready = ground arith;
  }
  waiter-Inv registered c at v = record {
    complete = v.complete;
    stores = v.stores;
    gone = v.gone;
    armed = ground (arith, v.armed);
    caught = ground (arith, v.stores, end_stores c.thread);
    ready = ground (arith, v.complete, store_drops c.thread);
  }
  waiter-Inv (returned b) c at v = record {
    complete = v.complete;
    stores = v.stores;
    gone = v.gone;
    armed = ground arith;
    caught = ground arith;
    ready = ground arith;
  }

  notifies-Inv :
      (curr : ℕ) (c : System d)
      → curr < shutdown_at_once
      → Inv d waker c
      → Inv d waker (record c { site = (swap_now d curr c.site).1 })
  unfolding swap_now
  notifies-Inv curr c low v = elim (Bool-cases (c.site.shared.shutdown == curr)) [
    | inl same ↦ rw same (record {
      complete = ground arith;
      stores = ground (arith, v.stores);
      gone = v.gone;
      armed = v.armed;
      caught = v.caught;
      ready = v.ready;
    })
    | inr moved ↦ rw moved v
  ]

  Step-Inv : {c c' : System d} → Step d p waker c c' → Inv d waker c → Inv d waker c'
  Step-Inv {c} thread_step v = thread-Inv c.thread c refl v
  Step-Inv {c} waiter_step v = waiter-Inv c.waiter c refl v
  Step-Inv {c} (notifies curr low) v = notifies-Inv curr c low v
  Step-Inv {c} (others inner os) v = record {
    complete = v.complete;
    stores = v.stores;
    gone = v.gone;
    armed = v.armed;
    caught = v.caught;
    ready = v.ready;
  }

  pub initial-Inv : (loop : Loop d) → Inv d waker (initial d loop)
  unfolding initial
  initial-Inv loop = record {
    complete = ground arith;
    stores = ground arith;
    gone = ground arith;
    armed = ground arith;
    caught = ground arith;
    ready = ground arith;
  }

  pub Reach-Inv : {s c : System d} → Inv d waker s → Reach d p waker s c → Inv d waker c
  Reach-Inv v here = v
  Reach-Inv v (next r st) = Step-Inv st (Reach-Inv v r)
