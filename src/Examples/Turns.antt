-- ===== src/Examples/Turns.antt =====
-- A task that waits for a socket, and a turn of the socket's reactor, at concrete inputs.
use romio.Base.{
  ℕ, ◌≡◌, refl, true, ◌⊎◌, none, some, arith, ok, ready, done, panics, ◌==◌, if◌then◌else◌,
}
use romio.Base.Bits.{test_bit}
use romio.Examples.Model.{model, calm}
use romio.Examples.Tables.{expecting, expecting-IsValid, bell}
use romio.Examples.Polls.{tied, socket, meanwhile, meanwhile-Calm}
use romio.Reactor.State.{ScheduledIo, read}
use romio.Reactor.Platform.{unix}
use romio.Reactor.Tokens.{source_token}
use romio.Reactor.Sources.{waker_of}
use romio.Reactor.Turn.{Loop, turn}
use romio.Reactor.Woken.{Woken}
use romio.Reactor.Events.{CannotReset, sent}
use romio.Reactor.Registration.Flags.{has}
use romio.PollEvented.State.{PollEvented, cached}
use romio.PollEvented.Ready.{flag, poll_evented_ready}
use romio.PollEvented.Attached.{Attached}
use romio.PollEvented.Turns.{reactor_of, after_turn, pending_is_served}

-- Task 4 waits to read the socket, and the operating system has three events for the reactor.
abbrev awaited : PollEvented model
awaited = record socket {
  cell = record tied {
    world = record (tied.world) {
      os = record calm { events = bell };
      reactors = λ a. if a == 8 then some expecting else none;
    };
  };
}

abbrev waiting_io : ScheduledIo model
waiting_io = record { aba_guard = 0; readiness = 0; reader = some 4; writer = none }

abbrev awaited_attached : Attached model awaited.cell waiting_io
awaited_attached = record {
  tie = record { handle = 8; token = 0 };
  inner = expecting;
  is_ready = refl;
  tied = refl;
  has_token = omega arith;
  alive = refl;
  there = refl;
  fits = omega arith;
}

pending_is_served_example :
    let s = reactor_of model unix awaited waiting_io awaited_attached in
    (CannotReset model unix 0 × (turn model unix none s ≡ panics))
    ⊎ ((l : Loop model) × (turn model unix none s ≡ done (ok tt, l))
        × Woken 4 l.woken
        × ((flags : ℕ) × (s' : PollEvented model) × (poll_evented_ready model unix 2 meanwhile 4
                read
                (after_turn model unix 8 l awaited)
              ≡ some (done (ready (ok flags), s')))
            × (has model flags 0 ≡ true)))
unfolding cached flag test_bit sent source_token waker_of
pending_is_served_example =
    pending_is_served model unix meanwhile meanwhile-Calm 4 read 5 awaited waiting_io none bell calm
      0 awaited_attached refl refl (omega arith) expecting-IsValid refl
      (omega arith, (omega arith, (omega arith, tt))) refl refl
