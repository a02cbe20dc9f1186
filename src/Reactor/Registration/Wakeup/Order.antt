-- ===== src/Reactor/Registration/Wakeup/Order.antt =====
-- In every order of the accesses the task sees the event or is woken.
use romio.Base.{ℕ, ◌<◌, ◌^◌, ◌≡◌, ◌≢◌, refl, true, ◌⊎◌, inl, inr, Option, none, some, Waker}
use romio.Base.Bits.{usize_bits}
use romio.Deps.{Deps}
use romio.Reactor.State.{Direction, ScheduledIo}
use romio.Reactor.Platform.{Platform, mask}
use romio.Reactor.Registration.Flags.{has}
use romio.Reactor.Registration.Wakeup.Machine.{returned, sent, Config, Reach, initial}
use romio.Reactor.Registration.Wakeup.Invariant.{Inv, sent_taken, initial-Inv, Reach-Inv}
use romio.Reactor.Woken.{Woken}

-- No wake-up is lost: a task polls a direction of a source while an event with a flag that the
-- direction looks for is delivered, and the other direction's task may fetch flags and register
-- wakers at any time. In every order of the accesses, once the poll has returned and the delivery
-- is complete, the poll has returned flags or the task has been woken.
pub no_lost_wakeup :
    (d : Deps) (p : Platform) (dir : Direction) (waker : Waker) (event : d.Ready) (i : ℕ)
    (io : ScheduledIo d) (c : Config d) (result : Option d.Ready)
    → io.readiness < 2 ^ usize_bits
    → has d (mask d p dir) i ≡ true
    → has d event i ≡ true
    → Reach d p dir waker event (initial d io) c
    → c.poller ≡ returned result
    → c.sender ≡ sent
    → (result ≢ none) ⊎ Woken waker c.woken
no_lost_wakeup d p dir waker event i io c result fits sees sends r polled delivered =
    conclude result polled
  where
    v : Inv d p dir waker event i c
    v = Reach-Inv d p dir waker event i sees sends (initial-Inv d p dir waker event i io fits) r

    conclude :
        (result : Option d.Ready)
        → c.poller ≡ returned result
        → (result ≢ none) ⊎ Woken waker c.woken
    conclude (some flags) q = inl (λ e. cc)
    conclude none q = inr (rw delivered at (v.caught (rw q refl) (rw delivered (sent_taken dir))))
