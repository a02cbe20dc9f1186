-- ===== src/Background/Stages.antt =====
-- src/reactor/background.rs: what the stages of the thread and of the waiting task say of the shutdown.
use romio.Base.{◌≡◌, refl, Bool, true, false, not, some, arith, Waker}
use romio.Deps.{Deps}
use romio.Reactor.Woken.{Woken}
use romio.Background.State.{shutdown_complete}
use romio.Background.Machine.{
  Thread, looping, broken, dropped, stored, finished, unwound, Waiter, starting, registered,
  returned, System,
}

-- The reactor was dropped; `SHUTDOWN` was stored; the thread is at its end.
abbrev pub after_drop : Thread → Bool
after_drop dropped = true
after_drop stored = true
after_drop finished = true
after_drop _ = false

abbrev pub after_store : Thread → Bool
after_store stored = true
after_store finished = true
after_store _ = false

abbrev pub at_end : Thread → Bool
at_end finished = true
at_end _ = false

-- The waker was registered in this poll; the poll returned `Pending`, or `Ready`.
abbrev pub waits : Waiter → Bool
waits starting = false
waits registered = true
waits (returned b) = not b

abbrev pub was_pending : Waiter → Bool
was_pending (returned b) = not b
was_pending _ = false

abbrev pub was_ready : Waiter → Bool
was_ready (returned b) = b
was_ready _ = false

pub pending_waits : (w : Waiter) → was_pending w ≡ true → waits w ≡ true
pending_waits starting e = ground arith
pending_waits registered e = refl
pending_waits (returned b) e = e

pub end_stores : (t : Thread) → at_end t ≡ true → after_store t ≡ true
end_stores finished e = refl
end_stores looping e = ground arith
end_stores broken e = ground arith
end_stores dropped e = ground arith
end_stores stored e = refl
end_stores unwound e = ground arith

pub store_drops : (t : Thread) → after_store t ≡ true → after_drop t ≡ true
store_drops finished e = refl
store_drops looping e = ground arith
store_drops broken e = ground arith
store_drops dropped e = refl
store_drops stored e = refl
store_drops unwound e = ground arith

module _ (d : Deps) (waker : Waker) where
  open d use {take_waker}

  pub record Inv (c : System d) : Type 0 where
    pub complete : c.site.shared.shutdown ≡ shutdown_complete → after_store c.thread ≡ true
    pub stores : after_store c.thread ≡ true → c.site.shared.shutdown ≡ shutdown_complete
    pub gone : after_drop c.thread ≡ true → c.site.alive ≡ false
    pub armed :
        waits c.waiter ≡ true
        → at_end c.thread ≡ false
        → (take_waker c.site.shared.shutdown_task).0 ≡ some waker
    pub caught :
        was_pending c.waiter ≡ true → at_end c.thread ≡ true → Woken waker c.site.loop.woken
    pub ready : was_ready c.waiter ≡ true → after_drop c.thread ≡ true
