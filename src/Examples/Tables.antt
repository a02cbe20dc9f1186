-- ===== src/Examples/Tables.antt =====
-- The laws of the table of sources at concrete inputs.
use romio.Base.{
  ℕ, List, panics, ◌⊎◌, ◌≡◌, ◌≢◌, ◌<◌, ◌≤◌, ◌^◌, refl, arith, true, false, none, some, [], ◌∷◌, ok,
  err, other_error, done, ◌&&◌, ◌*◌, ◌%◌,
}
use romio.Base.Bits.{usize_bits}
use romio.Examples.Slots
use romio.Examples.Model.{model, calm, Script}
use romio.Reactor.State.{read, ScheduledIo, Inner, token_wakeup, max_sources}
use romio.Reactor.Platform.{unix, mask}
use romio.Reactor.Tokens.{source_token, token_key, token_guard, next_guard}
use romio.Reactor.Tokens.Packing.{zero-IsGuard, token_roundtrip}
use romio.Reactor.Dispatch.{
  dispatch, dispatch_io, set_flags, take_reader, take_writer, wakes_reader, wakes_writer,
}
use romio.Reactor.Sources.{
  register, register_io, wake_io, set_waker, waker_of, wake_flags, add_source, drop_source, new_io,
  is_idle,
}
use romio.Reactor.Turn
use romio.Reactor.Valid.{IsValid, add_source-IsValid, drop_source-IsValid, register-IsValid}
use romio.Reactor.Delivery.{reused_key_ignores}
use romio.Reactor.History.{
  Reach, additions, here, later, adds, drops, dispatches, history-IsValid, new-IsValid,
}
use romio.Reactor.LiveTokens.{live_tokens}
use romio.Deps.Kernel.{Event}
use romio.Reactor.Turn.{Loop, turn, poll, handle_events, handle_event}
use romio.Reactor.Events.{CannotReset, Gains, sent, turn-Gains}
use romio.Reactor.Waits.{Waits}
use romio.Reactor.Wakings.{turn_wakes}
use romio.Reactor.Registration.Flags.{has}
use romio.Reactor.Woken.{Woken}
use romio.Base.Bits.{complement}
use romio.Reactor.Platform.{is_hup}
use romio.Reactor.Leaks.{drop_source-add_source}
use romio.Reactor.Refused.{add_source_refused, Keeps}

-- A new reactor, and what it becomes when source 5 is added to it.
abbrev pub start : Inner model
start = record { io = 0; next_aba_guard = 0; io_dispatch = []; wakeup = 0 }

abbrev pub one_source : Inner model
one_source = record start { next_aba_guard = 4194304; io_dispatch = some (new_io model 0) ∷ [] }

made : Turn.new model calm ≡ (ok start, record calm { tokens = 4194303 ∷ [] })
unfolding Turn.new
made = refl

pub added : add_source model 5 start calm ≡ (ok 0, one_source, record calm { tokens = 0 ∷ [] })
unfolding add_source source_token next_guard
added = refl

pub start-IsValid : IsValid model start
start-IsValid = new-IsValid model unix calm _ start made

pub one_source-IsValid : IsValid model one_source
unfolding add_source source_token next_guard
one_source-IsValid = add_source-IsValid model 5 start calm start-IsValid

-- A source is added and its first event comes.
abbrev grown : (inner : Inner model) × Reach model unix start inner
grown = (_, later (later here (adds 5 calm)) (dispatches 0 1))

history-IsValid_example :
    IsValid model grown.0
    × ((grown.0).next_aba_guard ≡ (additions model unix grown.1 * 2 ^ 22) % 2 ^ 64)
history-IsValid_example = history-IsValid model unix calm _ start grown.0 made grown.1

-- Two sources.
abbrev pair : (inner : Inner model) × Reach model unix start inner
pair = (_, later (later here (adds 5 calm)) (adds 6 calm))

live_tokens_example :
    (source_token 0 0 < 2 ^ usize_bits)
    × (source_token 0 0 ≢ token_wakeup)
    × (source_token 0 0 ≡ source_token 4194304 1 → ◌≡◌ {A = ℕ} 0 1)
    × (Slots.count (pair.0).io_dispatch ≤ max_sources)
unfolding add_source source_token next_guard
live_tokens_example =
    live_tokens model unix calm _ start pair.0 0 1 (new_io model 0) (new_io model 4194304) made
      pair.1 refl refl

-- The source is dropped and another one takes its key.
abbrev emptied : Inner model
emptied = record one_source { io_dispatch = none ∷ [] }

abbrev reused : Inner model
reused = record emptied { next_aba_guard = 8388608; io_dispatch = some (new_io model 4194304) ∷ [] }

dropped : drop_source model 0 one_source ≡ done emptied
unfolding drop_source
dropped = refl

reused_eq : add_source model 5 emptied calm ≡ (ok 0, reused, record calm { tokens = 4194304 ∷ [] })
unfolding add_source source_token next_guard
reused_eq = refl

reused-IsValid : IsValid model reused
unfolding add_source source_token next_guard
reused-IsValid =
    add_source-IsValid model 5 emptied calm
      (drop_source-IsValid model 0 one_source emptied one_source-IsValid dropped)

reused_key_ignores_example : dispatch model unix (source_token 0 0) 1 reused ≡ (reused, [])
unfolding next_guard
reused_key_ignores_example =
    reused_key_ignores model unix 5 emptied reused calm _ 0 1 0 1 zero-IsGuard refl (omega arith)
      (omega arith) reused-IsValid reused_eq

drop_source-add_source_example :
    (inner'' : Inner model) × (drop_source model 0 one_source ≡ done inner'')
    × ((j : ℕ) → Slots.get j inner''.io_dispatch ≡ Slots.get j start.io_dispatch)
    × (Slots.count inner''.io_dispatch ≡ Slots.count start.io_dispatch)
drop_source-add_source_example = drop_source-add_source model 5 start one_source calm _ 0 added

-- An operating system that refuses registrations.
abbrev refusing : Script
refusing = record calm { refuses = true }

-- After the refused source another one is added and dropped.
abbrev shared : (inner : Inner model) × Reach model unix (add_source model 5 start refusing).1 inner
unfolding add_source source_token next_guard drop_source
shared = (_, later (later here (adds 6 calm)) (drops 1 refl))

add_source_refused_example :
    ((add_source model 5 start refusing).0 ≡ err (other_error "refused"))
    × (Slots.count ((add_source model 5 start refusing).1).io_dispatch ≡ 1)
    × (is_idle model shared.0 ≡ false)
unfolding add_source source_token next_guard Keeps drop_source
add_source_refused_example =
    add_source_refused model unix 5 start shared.0 refusing refusing (other_error "refused")
      (omega arith) refl shared.1 (omega arith, tt)

token_roundtrip_example :
    (token_key (source_token 8388608 7) ≡ 7) × (token_guard (source_token 8388608 7) ≡ 8388608)
token_roundtrip_example = token_roundtrip 8388608 7 (2, omega arith, omega arith) (omega arith)

-- Two events for the source and one for a source that is gone.
abbrev pub bell : List (Event ℕ)
bell =
    record { token = 0; readiness = 1 }
    ∷ record { token = 4194304; readiness = 2 }
    ∷ record { token = 0; readiness = 8 }
    ∷ []

abbrev ringing : Loop model
ringing = record { inner = one_source; os = record calm { events = bell }; woken = [] }

turn-Gains_example :
    (CannotReset model unix 0 × (turn model unix none ringing ≡ panics))
    ⊎ ((s' : Loop model) × (turn model unix none ringing ≡ done (ok tt, s'))
        × Gains model unix 0 0 (new_io model 0) (sent model unix 0 bell) s'.inner)
unfolding source_token
turn-Gains_example =
    turn-Gains model unix none bell calm 0 ringing (new_io model 0) refl
      (omega arith, (omega arith, (omega arith, tt))) one_source-IsValid refl

-- Task 4 waits to read.
abbrev pub expecting : Inner model
expecting = record one_source {
  io_dispatch = some (record { aba_guard = 0; readiness = 0; reader = some 4; writer = none }) ∷ [];
}

pub expecting-IsValid : IsValid model expecting
unfolding register register_io wake_io set_waker waker_of wake_flags complement
expecting-IsValid = register-IsValid model 4 0 read one_source expecting [] one_source-IsValid refl

abbrev woken :
    (s : Loop model) × (turn model unix none (record ringing { inner = expecting })
      ≡ done (ok tt, s))
unfolding turn poll handle_events handle_event dispatch dispatch_io set_flags take_reader
    take_writer wakes_reader wakes_writer is_hup token_key token_guard
woken = (_, refl)

turn_wakes_example :
    Woken 4 (woken.0).woken
    ⊎ (((io' : ScheduledIo model) × (Slots.get 0 (woken.0).inner.io_dispatch ≡ some io')
          × Waits model unix 4 read io')
        × ((i : ℕ) → (has model (mask model unix read) i && sent model unix 0 bell i) ≡ false))
unfolding source_token waker_of
turn_wakes_example =
    turn_wakes model unix 4 read none bell calm 0 (record ringing { inner = expecting }) woken.0
      (record { aba_guard = 0; readiness = 0; reader = some 4; writer = none }) refl
      (omega arith, (omega arith, (omega arith, tt))) expecting-IsValid refl refl woken.1
