-- ===== src/Background/Liveness.antt =====
-- src/reactor/background.rs: a thread that is told to stop comes to its end.
use romio.Base.{ℕ, suc, ◌≤◌, ◌<◌, ◌≡◌, ◌≢◌, refl, Bool, true, false, ◌⊎◌, inl, inr, arith, Waker}
use romio.Deps.{Deps}
use romio.Reactor.State.{Inner}
use romio.Reactor.Platform.{Platform}
use romio.Reactor.Turn.{Loop}
use romio.Reactor.Woken.{Woken}
use romio.Background.State.{shutdown_at_once}
use romio.Background.Thread.{stops, drop_step, store_step, wake_step, register_step, swap_now}
use romio.Background.Machine.{
  Thread, looping, broken, dropped, stored, finished, unwound, Waiter, starting, registered,
  returned, System, thread_at, waiter_at, thread_step, waiter_step, notifies, others, Reach, next,
  initial,
}
use romio.Background.Shutdown.{shutdown_wakes}

-- How far a thread that stops has come.
abbrev pub progress : Thread → ℕ
progress looping = 0
progress broken = 1
progress dropped = 2
progress stored = 3
progress finished = 4
progress unwound = 0

abbrev before_store : Thread → Bool
before_store looping = true
before_store broken = true
before_store dropped = true
before_store _ = false

module _ (d : Deps) (p : Platform) (waker : Waker) where
  -- A run with so many accesses of the thread, and any accesses of the others among them.
  pub data Runs (s : System d) : ℕ → System d → Type 0 where
    start : Runs s 0 s
    thread_runs :
        {n : ℕ} {t : System d} → Runs s n t → Runs s (suc n) (thread_at d p waker t.thread t)
    waiter_runs : {n : ℕ} {t : System d} → Runs s n t → Runs s n (waiter_at d p waker t.waiter t)
    notify_runs :
        {n : ℕ} {t : System d} (curr : ℕ)
        → curr < shutdown_at_once
        → Runs s n t
        → Runs s n (record t { site = (swap_now d curr t.site).1 })
    others_run :
        {n : ℕ} {t : System d} (inner : Inner d) (os : d.Os)
        → Runs s n t
        → Runs s n (record t {
          site = record (t.site) { loop = record (t.site.loop) { inner = inner; os = os } };
        })

  -- Told to stop, and `n` accesses further.
  record Stopping (n : ℕ) (c : System d) : Type 0 where
    told : before_store c.thread ≡ true → c.site.shared.shutdown ≡ shutdown_at_once
    sound : c.thread ≢ unwound
    far : (c.thread ≡ finished) ⊎ (n ≤ progress c.thread)

  thread-Stopping :
      (n : ℕ) (t : Thread) (c : System d)
      → c.thread ≡ t
      → Stopping n c
      → Stopping (suc n) (thread_at d p waker t c)
  unfolding thread_at stops drop_step store_step wake_step
  thread-Stopping n looping c at v = record {
    told = ground (arith, v.told);
    sound = ground (arith, v.told);
    far = ground (arith, v.told, v.far);
  }
  thread-Stopping n broken c at v = record {
    told = ground (arith, v.told);
    sound = ground arith;
    far = ground (arith, v.far);
  }
  thread-Stopping n dropped c at v = record {
    told = ground arith;
    sound = ground arith;
    far = ground (arith, v.far);
  }
  thread-Stopping n stored c at v = record {
    told = ground arith;
    sound = ground arith;
    far = inl refl;
  }
  thread-Stopping n finished c at v = record { told = v.told; sound = v.sound; far = inl at }
  thread-Stopping n unwound c at v = absurd (v.sound at)

  swap_now-Stopping :
      (n curr : ℕ) (c : System d)
      → curr < shutdown_at_once
      → Stopping n c
      → Stopping n (record c { site = (swap_now d curr c.site).1 })
  unfolding swap_now
  swap_now-Stopping n curr c low v = record {
    told = ground (arith, v.told);
    sound = v.sound;
    far = v.far;
  }

  waiter-Stopping :
      (n : ℕ) (w : Waiter) (c : System d) → Stopping n c → Stopping n (waiter_at d p waker w c)
  unfolding waiter_at register_step
  waiter-Stopping n starting c v = record { told = v.told; sound = v.sound; far = v.far }
  waiter-Stopping n registered c v = record { told = v.told; sound = v.sound; far = v.far }
  waiter-Stopping n (returned b) c v = record { told = v.told; sound = v.sound; far = v.far }

  Runs-Stopping : {s : System d} {n : ℕ} {c : System d} → Stopping 0 s → Runs s n c → Stopping n c
  Runs-Stopping v start = v
  Runs-Stopping v (thread_runs {n} {t} r) = thread-Stopping n t.thread t refl (Runs-Stopping v r)
  Runs-Stopping v (waiter_runs {n} {t} r) = waiter-Stopping n t.waiter t (Runs-Stopping v r)
  Runs-Stopping v (notify_runs {n} {t} curr low r) =
      swap_now-Stopping n curr t low (Runs-Stopping v r)
  Runs-Stopping v (others_run {n} {t} inner os r) =
      let u = Runs-Stopping v r in record { told = u.told; sound = u.sound; far = u.far }

  Runs-Reach :
      {i s : System d} {n : ℕ} {c : System d}
      → Reach d p waker i s
      → Runs s n c
      → Reach d p waker i c
  Runs-Reach r start = r
  Runs-Reach r (thread_runs q) = next (Runs-Reach r q) thread_step
  Runs-Reach r (waiter_runs q) = next (Runs-Reach r q) waiter_step
  Runs-Reach r (notify_runs curr low q) = next (Runs-Reach r q) (notifies curr low)
  Runs-Reach r (others_run inner os q) = next (Runs-Reach r q) (others inner os)

  -- A thread in its loop that is told to stop is at its end after four of its accesses, whatever the
  -- other threads do between them.
  pub stops_in_four :
      (n : ℕ) (c c' : System d)
      → c.thread ≡ looping
      → c.site.shared.shutdown ≡ shutdown_at_once
      → 4 ≤ n
      → Runs c n c'
      → c'.thread ≡ finished
  stops_in_four n c c' at told enough r =
      let v =
        Runs-Stopping (record { told = λ e. told; sound = ground arith; far = inr (omega arith) })
          r in
      by_progress c'.thread v.far
    where
      by_progress : (t : Thread) → (t ≡ finished) ⊎ (n ≤ progress t) → t ≡ finished
      by_progress t (inl e) = e
      by_progress finished (inr far) = refl
      by_progress looping (inr far) = absurd (omega arith)
      by_progress broken (inr far) = absurd (omega arith)
      by_progress dropped (inr far) = absurd (omega arith)
      by_progress stored (inr far) = absurd (omega arith)
      by_progress unwound (inr far) = absurd (omega arith)

  -- The shutdown comes through: from a reactor thread in its loop and a word that tells it to stop,
  -- after four accesses of the thread and whatever the others do between them, a task that was told
  -- `Pending` by `Shutdown::poll` has been woken.
  pub shutdown_comes_through :
      (n : ℕ) (loop : Loop d) (c c' : System d)
      → Reach d p waker (initial d loop) c
      → c.thread ≡ looping
      → c.site.shared.shutdown ≡ shutdown_at_once
      → 4 ≤ n
      → Runs c n c'
      → c'.waiter ≡ returned false
      → Woken waker c'.site.loop.woken
  shutdown_comes_through n loop c c' reached at told enough r pending =
      shutdown_wakes d p waker loop c' (Runs-Reach reached r) pending
        (stops_in_four n c c' at told enough r)
