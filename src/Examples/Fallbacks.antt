-- ===== src/Examples/Fallbacks.antt =====
-- The race for the fallback reactor at concrete inputs.
use romio.Base.{◌≡◌, refl, true, some}
use romio.Examples.Model.{model, calm}
use romio.Examples.Registrations.{world_with}
use romio.Reactor.State.{Inner}
use romio.Reactor.World.{World, new_reactor, drop_reactor}
use romio.Reactor.Sources.{drop_inner, wake_all}
use romio.Reactor.Turn
use romio.Reactor.Handle.{set_fallback, background}
use romio.Reactor.Fallback.Race.{Race, stage_step, Reach, here, next, goes_on, start}
use romio.Reactor.Fallback.Agreement.{fallback_race}

-- No thread has a current reactor, and there is no fallback.
abbrev nobody : World model
nobody = record (world_with calm) { handle_fallback = 0 }

-- Threads 0 and 1 make reactors at 16 and 24; thread 1 wins, and both return its reactor.
abbrev raced_twice : (c : Race model) × Reach model true (start model nobody) c
unfolding stage_step Turn.new new_reactor set_fallback background drop_reactor drop_inner wake_all
raced_twice = (
  _,
  next
      (next
        (next
          (next
            (next (next (next (next (next here (goes_on 0)) (goes_on 1)) (goes_on 0)) (goes_on 1))
              (goes_on 1))
            (goes_on 0))
          (goes_on 0))
        (goes_on 0))
      (goes_on 1),
)

fallback_race_example :
    (24 ≡ (raced_twice.0).world.handle_fallback)
    × ((inner : Inner model) × ((raced_twice.0).world.reactors 24 ≡ some inner))
unfolding stage_step Turn.new new_reactor set_fallback background drop_reactor drop_inner wake_all
fallback_race_example = fallback_race model nobody raced_twice.0 0 refl raced_twice.1
