-- ===== src/Reactor/Fallback.antt =====
-- src/reactor/mod.rs, `HandlePriv::fallback`: the callers agree on one fallback reactor.
pub mod Race
pub mod Invariant
pub mod Agreement
pub mod Code
use romio.Base.{
  ℕ, ◌≡◌, ◌≢◌, refl, Bool, true, false, Bool-cases, Option-cases, inl, inr, arith, IoResult, ok,
  err, other_error, Outcome, done, ◌==◌,
}
use romio.Deps.{Deps}
use romio.Reactor.State.{Inner}
use romio.Reactor.World.{World, address, new_reactor, drop_reactor}
use romio.Reactor.Turn
use romio.Reactor.Handle.{set_fallback, background, reify, offer, fallback}

module _ (d : Deps) where
  pub drop_reactor-fallback :
      (handle : ℕ) (w : World d) → (drop_reactor d handle w).handle_fallback ≡ w.handle_fallback
  unfolding drop_reactor
  drop_reactor-fallback handle w = elim (Option-cases (w.reactors handle)) [
    | inl gone ↦ ground (arith, gone)
    | inr (inner, there) ↦ ground (arith, there)
  ]

  background-fallback :
      (spawned : Bool) (handle : ℕ) (w : World d)
      → (background d spawned handle w).handle_fallback ≡ w.handle_fallback
  unfolding background
  background-fallback true handle w = refl
  background-fallback false handle w = drop_reactor-fallback handle w

  reify-agrees :
      (w w' : World d) (h : ℕ) → reify d w ≡ done (ok h, w') → (w'.handle_fallback ≡ h) × (h ≢ 0)
  unfolding reify
  reify-agrees w w' h e = (ground arith, ground arith)

  offer-agrees :
      (others : World d → World d) (spawned : Bool) (inner : Inner d) (w w' : World d) (h : ℕ)
      → offer d others spawned inner w ≡ done (ok h, w')
      → (w'.handle_fallback ≡ h) × (h ≢ 0)
  unfolding offer set_fallback new_reactor
  offer-agrees others spawned inner w w' h e =
      let made = (new_reactor d inner w).1 in
      elim (Bool-cases ((others made).handle_fallback == 0)) [
        | inl won ↦ (
          ground (
            arith,
            background-fallback spawned (address w.allocated)
                (record (others made) { handle_fallback = address w.allocated }),
          ),
          ground arith,
        )
        | inr lost ↦
            reify-agrees (drop_reactor d (address w.allocated) (others made)) w' h (ground arith)
      ]

  made-agrees :
      (others : World d → World d) (spawned : Bool) (r : IoResult (Inner d)) (w₁ w' : World d)
      (h : ℕ)
      → ◌≡◌ {A = Outcome (IoResult ℕ × World d)}
          (elim r [
            | err _ ↦ done (err (other_error "failed to create reactor"), w₁)
            | ok inner ↦ offer d others spawned inner w₁
          ])
          (done (ok h, w'))
      → (w'.handle_fallback ≡ h) × (h ≢ 0)
  made-agrees others spawned (err x) w₁ w' h e = ground arith
  made-agrees others spawned (ok inner) w₁ w' h e = offer-agrees others spawned inner w₁ w' h e

  fallback-agrees :
      (others : World d → World d) (spawned : Bool) (w w' : World d) (h : ℕ)
      → fallback d others spawned w ≡ done (ok h, w')
      → (w'.handle_fallback ≡ h) × (h ≢ 0)
  unfolding fallback
  fallback-agrees others spawned w w' h e = elim (Bool-cases (w.handle_fallback == 0)) [
    | inl none_yet ↦
        made-agrees others spawned (Turn.new d w.os).0 (record w { os = (Turn.new d w.os).1 }) w' h
          (ground arith)
    | inr there ↦ reify-agrees w w' h (ground arith)
  ]

  -- Once a call of `fallback` has returned a handle, whichever thread's reactor won, every later call
  -- returns that handle and changes nothing.
  pub fallback_is_shared :
      (others others' : World d → World d) (spawned spawned' : Bool) (w w' : World d) (h : ℕ)
      → fallback d others spawned w ≡ done (ok h, w')
      → fallback d others' spawned' w' ≡ done (ok h, w')
  unfolding fallback reify
  fallback_is_shared others others' spawned spawned' w w' h e =
      let (same, nonzero) = fallback-agrees others spawned w w' h e in ground (arith, same, nonzero)
