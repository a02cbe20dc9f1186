-- ===== src/Examples/Registrations.antt =====
-- The laws of registrations at concrete inputs.
use romio.Base.{
  ◌∷◌, ℕ, arith, ◌+◌, ◌≡◌, ◌≢◌, refl, true, false, none, some, [], ok, err, other_error, done,
  panics, ◌==◌, if◌then◌else◌,
}
use romio.Examples.Model.{model, calm, Script}
use romio.Reactor.State.{read, write, Inner}
use romio.Reactor.Platform.{unix}
use romio.Reactor.World.{World, address}
use romio.Reactor.Sources.{add_source, new_io}
use romio.Reactor.Tokens.{source_token, next_guard}
use romio.Examples.Slots
use romio.PollEvented.Io.{drop_evented}
use romio.PollEvented.Lifetime.{drop_evented-register, holder}
use romio.Reactor.Handle.{try_current, fallback, reify}
use romio.Reactor.Registration.State.{Cell}
use romio.Reactor.Registration.Poll.{alone, register, poll_ready}
use romio.Reactor.Registration.Rounds.{poll_ready_ends, second_waiter_panics}
use romio.Reactor.Registration.First.{
  register_first, registered, true_or_error, failed_registration_sticks,
}

abbrev idle_reactor : Inner model
idle_reactor = record { io = 0; next_aba_guard = 0; io_dispatch = []; wakeup = 0 }

-- One reactor at address 8, which is the fallback.
abbrev pub world_with : Script → World model
world_with os = record {
  os = os;
  reactors = λ a. if a == 8 then some idle_reactor else none;
  handle_fallback = 8;
  current_reactor = none;
  boxes = λ a. none;
  contexts = λ a. some a;
  allocated = 1;
  woken = [];
}

abbrev fresh : Script → Cell model
fresh os = record { reg = record { inner = none; state = 0 }; world = world_with os }

abbrev pub refusing : Script
refusing = record calm { refuses = true }

register_first_example :
    register model (alone model) 5 (fresh calm)
    ≡ some (
        done (
          true_or_error model (add_source model 5 idle_reactor calm).0,
          registered model 5 8 idle_reactor (fresh calm),
        ))
unfolding try_current fallback reify
register_first_example =
    register_first model 5 8 idle_reactor (fresh calm) (world_with calm) refl refl refl

failed_registration_sticks_example :
    (c' : Cell model) × (register model (alone model) 5 (fresh refusing)
      ≡ some (done (err (other_error "refused"), c')))
    × (register model (alone model) 5 c' ≡ some (done (ok false, c')))
    × (poll_ready model unix (alone model) (some 3) read c'
        ≡ some (done (err (other_error "failed to associate with reactor"), c')))
unfolding add_source try_current fallback reify
failed_registration_sticks_example =
    failed_registration_sticks model unix 5 8 idle_reactor (fresh refusing) (world_with refusing)
      (other_error "refused") (alone model) (some 3) read refl refl refl refl

-- A registration that another thread has locked.
abbrev locked : Cell model
locked = record { reg = record { inner = none; state = 1 }; world = world_with calm }

poll_ready_ends_example : poll_ready model unix (alone model) (some 3) read locked ≢ none
poll_ready_ends_example = poll_ready_ends model unix (alone model) (some 3) read locked

second_waiter_panics_example :
    (c' : Cell model) × (poll_ready model unix (alone model) (some 3) read locked
      ≡ some (done (ok none, c')))
    × (c'.reg.state ≡ address 1 + 1)
    × (poll_ready model unix (alone model) (some 4) write c' ≡ some panics)
second_waiter_panics_example =
    second_waiter_panics model unix 3 (some 4) read write (alone model) locked refl

drop_evented-register_example :
    (c' : Cell model) × (inner'' : Inner model) × (world : World model) × (register model
        (alone model)
        5
        (fresh calm)
      ≡ some (done (ok true, c')))
    × (drop_evented model (holder model 5 0 0 c') ≡ done world)
    × (world.reactors 8 ≡ some inner'')
    × ((j : ℕ) → Slots.get j inner''.io_dispatch ≡ none)
    × (Slots.count inner''.io_dispatch ≡ 0)
unfolding add_source source_token next_guard try_current fallback reify
drop_evented-register_example =
    drop_evented-register model 5 8 0 0 0 idle_reactor
      (record idle_reactor { next_aba_guard = 4194304; io_dispatch = some (new_io model 0) ∷ [] })
      (record calm { tokens = 0 ∷ [] }) (fresh calm) (world_with calm) refl refl refl refl
      (omega arith)
