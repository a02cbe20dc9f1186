-- ===== src/Examples/Wakeups.antt =====
-- `no_lost_wakeup` and the laws of the streams at concrete inputs.
use romio.Base.{ℕ, ◌≡◌, ◌≢◌, ◌⊎◌, refl, Option, none, some, [], ◌∷◌, arith, true, ◌&&◌}
use romio.Base.Bits.{test_bit, complement}
use romio.Examples.Model.{model}
use romio.Reactor.State.{read, write, ScheduledIo}
use romio.Reactor.Platform.{unix, mask, hup}
use romio.Reactor.Sources.{set_waker, waker_of, register_io}
use romio.Reactor.Dispatch.{set_flags, take_writer, take_reader, wakes_reader, wakes_writer}
use romio.Reactor.Platform.{is_hup}
use romio.Reactor.Registration.Source.{take_flags, some_flags, mask_no_hup, poll_io, quiet}
use romio.Reactor.Registration.Flags.{has}
use romio.Reactor.Registration.Streams.{
  flags_of, streams_independent, hup_stays, register_misses_hup,
}
use romio.Reactor.Registration.Wakeup.Machine.{
  Config, initial, Reach, here, next, poll_step, send_step, poller_at, sender_at,
}
use romio.Reactor.Woken.{Woken}
use romio.Reactor.Registration.Wakeup.Order.{no_lost_wakeup}

-- A source with these flags and nobody waiting.
abbrev source_with : ℕ → ScheduledIo model
source_with n = record { aba_guard = 0; readiness = n; reader = none; writer = none }

-- The reader polls and registers, the event comes and takes the waker, and only then does the reader
-- fetch again.
abbrev crossing : (c : Config model) × Reach model unix read 3 1 (initial model (source_with 0)) c
unfolding poller_at sender_at initial
crossing = (
  _,
  next
      (next
        (next (next (next (next (next here poll_step) poll_step) send_step) send_step) send_step)
        poll_step)
      send_step,
)

no_lost_wakeup_example : (◌≢◌ {A = Option ℕ} (some 1) none) ⊎ Woken 3 (3 ∷ [])
unfolding poller_at sender_at initial take_flags some_flags set_waker waker_of set_flags take_writer
    take_reader wakes_reader wakes_writer is_hup mask mask_no_hup hup complement test_bit
no_lost_wakeup_example =
    no_lost_wakeup model unix read 3 1 0 (source_with 0) crossing.0 (some 1) (omega arith) refl refl
      crossing.1 refl refl

streams_independent_example :
    flags_of model
      (poll_io model unix
        (quiet model)
        (quiet model)
        (some 4)
        write
        (poll_io model unix (quiet model) (quiet model) none read (source_with 11)).1).0
      1
    ≡ flags_of model
        (poll_io model unix (quiet model) (quiet model) (some 4) write (source_with 11)).0
        1
streams_independent_example =
    streams_independent model unix none (some 4) read (source_with 11) 1 (omega arith)

hup_stays_example :
    flags_of model
      (poll_io model unix
        (quiet model)
        (quiet model)
        none
        read
        (poll_io model unix (quiet model) (quiet model) none read (source_with 9)).1).0
      3
    ≡ (flags_of model (poll_io model unix (quiet model) (quiet model) none read (source_with 9)).0 3
        && has model (hup model unix) 3)
hup_stays_example = hup_stays model unix none none read (source_with 9) 3 (omega arith)

register_misses_hup_example :
    ((register_io model 4 write (source_with 8)).1 ≡ [])
    × (flags_of model
          (poll_io model unix (quiet model) (quiet model) none write (source_with 8)).0
          3
        ≡ true)
unfolding hup test_bit
register_misses_hup_example =
    register_misses_hup model unix 4 (source_with 8) 3 (omega arith) refl refl refl
