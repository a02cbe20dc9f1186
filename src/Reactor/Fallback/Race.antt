-- ===== src/Reactor/Fallback/Race.antt =====
-- src/reactor/mod.rs, `HandlePriv::fallback`: any number of threads that create the fallback reactor
-- at the same time, one access of what they share after the other.
use romio.Base.{ℕ, ◌≤◌, ◌≡◌, Bool, some, IoResult, ok, err, other_error, ◌==◌, if◌then◌else◌}
use romio.Deps.{Deps}
use romio.Reactor.State.{Inner}
use romio.Reactor.World.{World, update, new_reactor, drop_reactor}
use romio.Reactor.Handle.{set_fallback, background}
use romio.Reactor.Turn

-- Where a thread is in `fallback`: before its load of `HANDLE_FALLBACK`; before `Reactor::new`; with a
-- reactor of its own, before the compare-exchange, after it, and with what it then loaded; and at
-- its end, by a return or by the `assert!`.
pub data Stage : Type 0 where
  idle creating : Stage
  made won lost : ℕ → Stage
  reloaded : ℕ → ℕ → Stage
  returned : IoResult ℕ → Stage
  aborted : Stage

module _ (d : Deps) where
  -- What a thread does next. `spawned`: whether a thread for its reactor can be spawned.
  unfoldable pub stage_step : Bool → Stage → World d → Stage × World d
  stage_step spawned idle w =
      (if w.handle_fallback == 0 then creating else returned (ok w.handle_fallback), w)
  stage_step spawned creating w =
      let (res, os') = Turn.new d w.os in
      elim res [
        | err _ ↦ (returned (err (other_error "failed to create reactor")), record w { os = os' })
        | ok inner ↦
            let (handle, w') = new_reactor d inner (record w { os = os' }) in (made handle, w')
      ]
  stage_step spawned (made handle) w =
      let (is_ok, w') = set_fallback d handle w in (if is_ok then won handle else lost handle, w')
  stage_step spawned (won handle) w = (returned (ok handle), background d spawned handle w)
  stage_step spawned (lost handle) w = (reloaded handle w.handle_fallback, w)
  stage_step spawned (reloaded handle fallback) w =
      (if fallback == 0 then aborted else returned (ok fallback), drop_reactor d handle w)
  stage_step spawned (returned res) w = (returned res, w)
  stage_step spawned aborted w = (aborted, w)

  pub record Race : Type 0 where
    pub world : World d
    pub stage : ℕ → Stage

  abbrev pub moved : Bool → ℕ → Race → Race
  moved spawned i c =
      let (s, w) = stage_step spawned (c.stage i) c.world in
      record { world = w; stage = update c.stage i s }

  -- Reactors that live still live.
  abbrev pub KeepsAlive : World d → World d → Type 0
  KeepsAlive w w' =
      (a : ℕ) (inner : Inner d)
      → w.reactors a ≡ some inner
      → (inner' : Inner d) × (w'.reactors a ≡ some inner')

  -- A thread goes on in `fallback`; or the process does something else, which does not store to
  -- `HANDLE_FALLBACK`, gives no address out again and drops no reactor.
  pub data Step (spawned : Bool) (c : Race) : Race → Type 0 where
    goes_on : (i : ℕ) → Step spawned c (moved spawned i c)
    works :
        (w : World d)
        → w.handle_fallback ≡ c.world.handle_fallback
        → c.world.allocated ≤ w.allocated
        → KeepsAlive c.world w
        → Step spawned c (record c { world = w })

  pub data Reach (spawned : Bool) (s : Race) : Race → Type 0 where
    here : Reach spawned s s
    next : {t u : Race} → Reach spawned s t → Step spawned t u → Reach spawned s u

  -- No thread has begun.
  abbrev pub start : World d → Race
  start w = record { world = w; stage = λ i. idle }
