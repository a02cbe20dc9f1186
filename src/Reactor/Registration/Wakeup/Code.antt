-- ===== src/Reactor/Registration/Wakeup/Code.antt =====
-- The machine's steps, run one after the other, are `Inner::poll_ready` and `Reactor::dispatch`.
use romio.Base.{◌≡◌, refl, Bool-cases, inl, inr, some, [], ◌++◌, Waker}
use romio.Deps.{Deps}
use romio.Reactor.State.{Direction, ScheduledIo}
use romio.Reactor.Platform.{Platform}
use romio.Reactor.Dispatch.{dispatch_io, wake_option}
use romio.Reactor.Registration.Source.{take_flags, poll_io, retry}
use romio.Reactor.Registration.Wakeup.Machine.{Config, poller_at, sender_at, returned, initial}

module _ (d : Deps) (p : Platform) (dir : Direction) (waker : Waker) (event : d.Ready) where
  -- The next access of the task, and of the reactor.
  abbrev pub poll_next : Config d → Config d
  poll_next c = poller_at d p dir waker event c.poller c

  abbrev pub send_next : Config d → Config d
  send_next c = sender_at d p dir waker event c.sender c

  abbrev pub meanwhile : (ScheduledIo d → ScheduledIo d) → Config d → Config d
  meanwhile others c = record c { io = others c.io }

  -- The result of `poll_ready`, whatever other threads do to the source between its accesses, is
  -- that of the machine's task after three accesses with the same between them; and the reactor's
  -- four accesses, with nothing between them, leave the source and wake the tasks as `dispatch` does.
  pub machine-poll_io :
      (io : ScheduledIo d) (before_waker before_retry : ScheduledIo d → ScheduledIo d)
      → ((poll_next (
            meanwhile before_retry
              (poll_next (meanwhile before_waker (poll_next (initial d io)))))).poller
          ≡ returned
              (poll_io d p
                (λ x. (before_waker x, []))
                (λ x. (before_retry x, []))
                (some waker)
                dir
                io).0)
        × ((send_next (send_next (send_next (send_next (initial d io))))).io
            ≡ (dispatch_io d p event io).0)
        × ((send_next (send_next (send_next (send_next (initial d io))))).woken
            ≡ wake_option (dispatch_io d p event io).1 ++ wake_option (dispatch_io d p event io).2)
  unfolding poller_at sender_at initial poll_io retry dispatch_io
  machine-poll_io io before_waker before_retry =
      elim (Bool-cases (d.is_empty (take_flags d p dir io).0)) [
        | inl nothing ↦ rw nothing (refl, refl, refl)
        | inr flags ↦ rw flags (refl, refl, refl)
      ]
