-- ===== src/Reactor/Fallback/Code.antt =====
-- src/reactor/mod.rs, `HandlePriv::fallback`: the steps of the race are those of the function.
use romio.Base.{
  ℕ, zero, suc, ◌≡◌, Bool, Bool-cases, IoResult-cases, inl, inr, Option, none, some, IoResult,
  arith, Outcome, done, panics, ◌==◌,
}
use romio.Deps.{Deps}
use romio.Reactor.World.{World, new_reactor}
use romio.Reactor.Handle.{fallback, offer, reify, set_fallback, background}
use romio.Reactor.Turn
use romio.Reactor.Fallback.{drop_reactor-fallback}
use romio.Reactor.Fallback.Race.{Stage, idle, made, returned, aborted, stage_step}

module _ (d : Deps) where
  unfoldable pub steps : ℕ → Bool → Stage × World d → Stage × World d
  steps zero spawned (s, w) = (s, w)
  steps (suc n) spawned (s, w) = steps n spawned (stage_step d spawned s w)

  -- What others do before the compare-exchange.
  unfoldable pub interfered : (World d → World d) → Stage × World d → Stage × World d
  interfered others (made h, w) = (made h, others w)
  interfered others (s, w) = (s, w)

  unfoldable pub finished : Stage × World d → Option (Outcome (IoResult ℕ × World d))
  finished (returned r, w) = some (done (r, w))
  finished (aborted, w) = some panics
  finished (s, w) = none

  unfoldable pub raced :
      (World d → World d) → Bool → World d → Option (Outcome (IoResult ℕ × World d))
  raced others spawned w =
      finished (steps 3 spawned (interfered others (steps 2 spawned (idle, w))))

  -- The function takes these steps: with what others do before its compare-exchange, it returns what a
  -- thread that takes five steps has returned.
  pub fallback-steps :
      (others : World d → World d) (spawned : Bool) (w : World d)
      → raced others spawned w ≡ some (fallback d others spawned w)
  unfolding raced finished steps interfered stage_step fallback offer reify set_fallback background
  fallback-steps others spawned w = elim (Bool-cases (w.handle_fallback == 0)) [
    | inr there ↦ ground (arith, there)
    | inl unset ↦
        let (res, os) = Turn.new d w.os in
        elim (IoResult-cases res) [
          | inr (e, bad) ↦ ground (arith, unset, bad)
          | inl (inner, fine) ↦
              let w₁ = (new_reactor d inner (record w { os = os })).1 in
              let h = (new_reactor d inner (record w { os = os })).0 in
              elim (Bool-cases ((others w₁).handle_fallback == 0)) [
                | inl won_it ↦ ground (arith, unset, fine, won_it)
                | inr lost_it ↦
                    ground (arith, unset, fine, lost_it, drop_reactor-fallback d h (others w₁))
              ]
        ]
  ]
