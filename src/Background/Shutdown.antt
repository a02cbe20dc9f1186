-- ===== src/Background/Shutdown.antt =====
-- src/reactor/background.rs: the `Shutdown` future is ready only when the reactor is gone, and its
-- task is woken then.
use romio.Base.{
  ◌≡◌, ◌≢◌, ◌∙◌, refl, true, false, ◌⊎◌, inl, inr, arith, Waker, none, IoError, err, done, subst,
  false,
}
use romio.Deps.{Deps}
use romio.Reactor.Platform.{Platform}
use romio.Reactor.Turn.{Loop, turn}
use romio.Reactor.Woken.{Woken}
use romio.Background.State.{shutdown_complete}
use romio.Background.Thread.{stops}
use romio.Background.Machine.{
  Thread, looping, broken, dropped, stored, finished, unwound, Waiter, starting, registered,
  returned, System, thread_at, waiter_at, thread_step, waiter_step, notifies, others, Reach, here,
  next, initial, turned,
}
use romio.Background.Stages.{store_drops}
use romio.Background.Invariant.{initial-Inv, Reach-Inv}

module _ (d : Deps) (p : Platform) (waker : Waker) where
  thread_at-unwound :
      (t : Thread) (c : System d)
      → c.thread ≡ t
      → t ≡ unwound
      → (thread_at d p waker t c).thread ≡ unwound
  unfolding thread_at
  thread_at-unwound unwound c at e = at
  thread_at-unwound looping c at e = ground arith
  thread_at-unwound broken c at e = ground arith
  thread_at-unwound dropped c at e = ground arith
  thread_at-unwound stored c at e = ground arith
  thread_at-unwound finished c at e = ground arith

  waiter_at-thread : (w : Waiter) (c : System d) → (waiter_at d p waker w c).thread ≡ c.thread
  unfolding waiter_at
  waiter_at-thread starting c = refl
  waiter_at-thread registered c = refl
  waiter_at-thread (returned b) c = refl

  stays_unwound : {s c : System d} → s.thread ≡ unwound → Reach d p waker s c → c.thread ≡ unwound
  stays_unwound e here = e
  stays_unwound e (next {t} r thread_step) = thread_at-unwound t.thread t refl (stays_unwound e r)
  stays_unwound e (next {t} r waiter_step) = waiter_at-thread t.waiter t ∙ stays_unwound e r
  stays_unwound e (next r (notifies curr low)) = stays_unwound e r
  stays_unwound e (next r (others inner os)) = stays_unwound e r

  -- In every order of the accesses, with calls of `shutdown_now` at any time: once `Shutdown::poll`
  -- has returned `Pending` and the thread is at its end, the task that polled has been woken.
  pub shutdown_wakes :
      (loop : Loop d) (c : System d)
      → Reach d p waker (initial d loop) c
      → c.waiter ≡ returned false
      → c.thread ≡ finished
      → Woken waker c.site.loop.woken
  shutdown_wakes loop c r pending end =
      let v = Reach-Inv d p waker (initial-Inv d p waker loop) r in
      v.caught (rw pending refl) (rw end refl)

  -- In every order of the accesses: if `Shutdown::poll` has returned `Ready`, the reactor has been
  -- dropped, and the word is `SHUTDOWN` only if the reactor has been dropped.
  pub shutdown_after_drop :
      (loop : Loop d) (c : System d)
      → Reach d p waker (initial d loop) c
      → (c.waiter ≡ returned true) ⊎ (c.site.shared.shutdown ≡ shutdown_complete)
      → c.site.alive ≡ false
  shutdown_after_drop loop c r (inl polled) =
      let v = Reach-Inv d p waker (initial-Inv d p waker loop) r in
      v.gone (v.ready (rw polled refl))
  shutdown_after_drop loop c r (inr word) =
      let v = Reach-Inv d p waker (initial-Inv d p waker loop) r in
      v.gone (store_drops c.thread (v.complete word))

  -- In every order of the accesses: if the thread is in its loop, is not told to stop, and a turn of its
  -- reactor returns an error, then from its next access on, whatever else happens, the thread has
  -- unwound, the word is not `SHUTDOWN` and no `Shutdown::poll` returns `Ready`.
  pub unwound_never_ready :
      (loop l : Loop d) (e : IoError) (c c' : System d)
      → Reach d p waker (initial d loop) c
      → c.thread ≡ looping
      → stops d c.site ≡ false
      → turn d p none c.site.loop ≡ done (err e, l)
      → Reach d p waker (thread_at d p waker looping c) c'
      → (c'.thread ≡ unwound)
        × (c'.site.shared.shutdown ≢ shutdown_complete)
        × (c'.waiter ≢ returned true)
  unfolding thread_at turned
  unwound_never_ready loop l e c c' r at goes fails r' =
      let started = Reach-Inv d p waker (initial-Inv d p waker loop) r in
      let stepped : Reach d p waker c (thread_at d p waker looping c) =
        subst (λ t. Reach d p waker c (thread_at d p waker t c)) at (next here thread_step) in
      let v = Reach-Inv d p waker (Reach-Inv d p waker started stepped) r' in
      let end : (thread_at d p waker looping c).thread ≡ unwound = ground (arith, goes, fails) in
      let still : c'.thread ≡ unwound = stays_unwound end r' in
      (
        still,
        λ word. ground (arith, v.complete word, still),
        λ polled. ground (arith, v.ready (rw polled refl), still),
      )
