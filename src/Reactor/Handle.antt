-- ===== src/Reactor/Handle.antt =====
-- src/reactor/mod.rs, `impl HandlePriv`: the handle to the reactor of the thread, or to the
-- fallback reactor, which the first caller creates.
use romio.Base.{
  ℕ, Option, Bool, true, false, none, some, ◌==◌, if◌then◌else◌, IoResult, ok, err, other_error,
  Outcome, done, panics,
}
use romio.Deps.{Deps}
use romio.Reactor.State.{Inner}
use romio.Reactor.World.{World, new_reactor, drop_reactor, upgrade}
use romio.Reactor.Turn

-- `struct Handle`, with the address of the reactor that a `HandlePriv` points to; `Handle::default`,
-- `Reactor::handle` and `Handle::into_priv`
pub record Handle : Type 0 where
  pub inner : Option ℕ

unfoldable pub default_handle : Handle
default_handle = record { inner = none }

unfoldable pub handle_of : ℕ → Handle
handle_of reactor = record { inner = some reactor }

unfoldable pub into_priv : Handle → Option ℕ
into_priv h = h.inner

module _ (d : Deps) where
  -- `HandlePriv::wakeup`: nothing if the reactor is gone; and `Handle::wakeup`
  unfoldable pub wakeup_priv : ℕ → World d → Outcome (World d)
  wakeup_priv handle w = elim (upgrade d handle w) [
    | none ↦ done w
    | some inner ↦ elim (Turn.wakeup d inner w.os) [
      | done os' ↦ done (record w { os = os' })
      | panics ↦ panics
    ]
  ]

  unfoldable pub wakeup : Handle → World d → Outcome (World d)
  wakeup h w = elim h.inner [ none ↦ done w | some handle ↦ wakeup_priv handle w ]

  -- `set_fallback`: the compare-exchange of `HANDLE_FALLBACK` from 0; `true` is `Ok(())`.
  unfoldable pub set_fallback : ℕ → World d → Bool × World d
  set_fallback handle w =
      if w.handle_fallback == 0 then (true, record w { handle_fallback = handle }) else (false, w)

  -- `reactor.background()` and `bg.forget()`: if no thread can be spawned, the reactor is dropped.
  unfoldable pub background : Bool → ℕ → World d → World d
  background spawned handle w = if spawned then w else drop_reactor d handle w

  -- The last part of `fallback`: `assert!(fallback != 0)` and the clone of the handle.
  unfoldable pub reify : World d → Outcome (IoResult ℕ × World d)
  reify w = if w.handle_fallback == 0 then panics else done (ok w.handle_fallback, w)

  -- `fallback` from a reactor that was made. `others` is what other threads do before the
  -- compare-exchange. The reactor that loses the race is dropped.
  unfoldable pub offer :
      (World d → World d) → Bool → Inner d → World d → Outcome (IoResult ℕ × World d)
  offer others spawned inner w =
      let (handle, w₁) = new_reactor d inner w in
      let (won, w₂) = set_fallback handle (others w₁) in
      if won
      then done (ok handle, background spawned handle w₂)
      else reify (drop_reactor d handle w₂)

  -- `HandlePriv::fallback`
  unfoldable pub fallback : (World d → World d) → Bool → World d → Outcome (IoResult ℕ × World d)
  fallback others spawned w =
      if w.handle_fallback == 0
      then (let (res, os') = Turn.new d w.os in
          elim res [
            | err _ ↦ done (err (other_error "failed to create reactor"), record w { os = os' })
            | ok inner ↦ offer others spawned inner (record w { os = os' })
          ])
      else reify w

  -- `HandlePriv::try_current`
  unfoldable pub try_current : (World d → World d) → Bool → World d → Outcome (IoResult ℕ × World d)
  try_current others spawned w = elim w.current_reactor [
    | some handle ↦ done (ok handle, w)
    | none ↦ fallback others spawned w
  ]
