-- ===== src/Reactor/Fallback/Agreement.antt =====
-- src/reactor/mod.rs, `HandlePriv::fallback`: threads that race end with one reactor, which lives.
use romio.Base.{
  ℕ, ◌≤◌, ◌<◌, ◌≡◌, refl, subst, sym, ap, true, false, other_error, Bool-cases, inl, inr, ◌⊎◌,
  IoResult-cases, ok, err, arith, ◌==◌,
}
use romio.Deps.{Deps}
use romio.Reactor.World.{World, update, address, new_reactor, drop_reactor}
use romio.Reactor.Handle.{set_fallback, background}
use romio.Reactor.Turn
use romio.Reactor.Fallback.Race.{
  Stage, idle, creating, made, won, lost, reloaded, returned, aborted, stage_step, Race, Step,
  goes_on, works, Reach, here, next, start,
}
use romio.Reactor.Fallback.Invariant.{
  Lives, own, Fits, Fits-Spares, Inv, Spares, Spares-refl, new_reactor-Spares, drop_reactor-Spares,
  moves-Inv, wins-Inv,
}

module _ (d : Deps) where
  abbrev After : ℕ → Race d → Stage × World d → Type 0
  After i c (s, w) = Inv d (record { world = w; stage = update c.stage i s })

  -- A step from a stage that does not store to `HANDLE_FALLBACK`.
  Spares-Inv :
      (i : ℕ) (s s' : Stage) (w : World d) (c : Race d)
      → Inv d c
      → c.stage i ≡ s
      → Spares d (own d s) c.world w
      → Fits d w s'
      → (own d s' ≡ 0) ⊎ ((own d s' ≡ own d s) ⊎ (address c.world.allocated ≤ own d s'))
      → own d s' < address w.allocated
      → (own d s ≡ c.world.handle_fallback → own d s ≡ 0)
      → After i c (s', w)
  Spares-Inv i s s' w c v at spares fits from below differs =
      let owned : own d (c.stage i) ≡ own d s = ap (own d) at in
      moves-Inv d i s' w c v (subst (λ (x : ℕ). Spares d x c.world w) (sym owned) spares) fits
        (ground (arith, from, owned)) below (ground (arith, owned, differs))

  idle-Inv :
      (i : ℕ) (s s' : Stage) (c : Race d)
      → Inv d c
      → c.stage i ≡ s
      → own d s' ≡ own d s
      → Fits d c.world s'
      → (own d s ≡ c.world.handle_fallback → own d s ≡ 0)
      → After i c (s', c.world)
  idle-Inv i s s' c v at kept fits differs =
      Spares-Inv i s s' c.world c v at (Spares-refl d (own d s) c.world) fits (inr (inl kept))
        (omega (arith, v.old i, kept, ap (own d) at)) differs

  goes-Inv :
      (i : ℕ) (s : Stage) (c : Race d)
      → Inv d c
      → c.stage i ≡ s
      → Fits d c.world s
      → After i c (stage_step d true s c.world)
  unfolding stage_step own new_reactor set_fallback background
  goes-Inv i idle c v at f = elim (Bool-cases (c.world.handle_fallback == 0)) [
    | inl unset ↦ rw unset (idle-Inv i idle creating c v at refl tt (λ e. refl))
    | inr set ↦ rw set (
        idle-Inv i idle (returned (ok c.world.handle_fallback)) c v at refl
          (refl, ground (arith, set)) (λ e. refl))
  ]
  goes-Inv i creating c v at f =
      let (res, os) = Turn.new d c.world.os in
      elim (IoResult-cases res) [
        | inl (inner, fine) ↦
            let (spares, lives) = new_reactor-Spares d inner os c.world in
            rw (stage_step, fine)
              (Spares-Inv i creating (made (address c.world.allocated))
                (new_reactor d inner (record (c.world) { os = os })).1 c v at spares
                (omega arith, lives, omega (arith, v.fallback_old)) (inr (inr (omega arith)))
                (omega arith) (λ e. refl))
        | inr (e, bad) ↦
            rw (stage_step, bad)
              (Spares-Inv i creating (returned (err (other_error "failed to create reactor")))
                (record (c.world) { os = os }) c v at (refl, omega arith, λ a other lives. lives) tt
                (inl refl) (omega arith) (λ e. refl))
      ]
  goes-Inv i (made h) c v at (pos, lives, differs) =
      elim (Bool-cases (c.world.handle_fallback == 0)) [
        | inl unset ↦ rw unset (wins-Inv d i h c v at (ground (arith, unset)))
        | inr set ↦ rw set (
            idle-Inv i (made h) (lost h) c v at refl (pos, differs, ground (arith, set))
              (λ e. ground (arith, e, differs)))
      ]
  goes-Inv i (won h) c v at f = idle-Inv i (won h) (returned (ok h)) c v at refl f (λ e. refl)
  goes-Inv i (lost h) c v at (pos, differs, set) =
      idle-Inv i (lost h) (reloaded h c.world.handle_fallback) c v at refl
        (pos, differs, (refl, set)) (λ e. ground (arith, e, differs))
  goes-Inv i (reloaded h a) c v at (pos, differs, (same, set)) =
      let on : (a == 0) ≡ false = ground (arith, set) in
      let spares = drop_reactor-Spares d h c.world in
      rw on (
        Spares-Inv i (reloaded h a) (returned (ok a)) (drop_reactor d h c.world) c v at spares
          (ground (arith, spares.0, same), set) (inl refl) (omega arith)
          (λ e. ground (arith, e, differs)))
  goes-Inv i (returned r) c v at f = idle-Inv i (returned r) (returned r) c v at refl f (λ e. refl)
  goes-Inv i aborted c v at f = absurd f

  Step-Inv : {c c' : Race d} → Step d true c c' → Inv d c → Inv d c'
  Step-Inv {c} (goes_on i) v = goes-Inv i (c.stage i) c v refl (v.fits i)
  Step-Inv {c} (works w same grown kept) v = record {
    fits = λ i. Fits-Spares d 0 c.world w (c.stage i) spares (λ pos. pos) (v.fits i);
    apart = v.apart;
    old = λ i. omega (arith, v.old i);
    fallback_old = omega (arith, v.fallback_old);
    alive = elim v.alive [
      | inl unset ↦ inl (omega (arith, same, unset))
      | inr (inner, there) ↦ inr (rw same (kept c.world.handle_fallback inner there))
    ];
  }
    where
      spares : Spares d 0 c.world w
      spares = (same, grown, λ a other lives. kept a lives.0 lives.1)

  Reach-Inv :
      (w : World d) (c : Race d) → w.handle_fallback ≡ 0 → Reach d true (start d w) c → Inv d c
  unfolding own
  Reach-Inv w c unset here = record {
    fits = λ i. tt;
    apart = λ i j differ pos. absurd (pos refl);
    old = λ i. omega arith;
    fallback_old = omega arith;
    alive = inl unset;
  }
  Reach-Inv w c unset (next {t} r st) = Step-Inv st (Reach-Inv w t unset r)

  -- What holds of a thread at a stage: no `assert!` fails, and a handle that is returned is the one in
  -- `HANDLE_FALLBACK`, and there is a reactor at its address.
  abbrev pub Agrees : World d → Stage → Type 0
  Agrees w idle = Unit
  Agrees w creating = Unit
  Agrees w (made h) = Unit
  Agrees w (won h) = Unit
  Agrees w (lost h) = Unit
  Agrees w (reloaded h a) = Unit
  Agrees w (returned (ok h)) = (h ≡ w.handle_fallback) × Lives d w h
  Agrees w (returned (err e)) = Unit
  Agrees w aborted = ⊥

  Fits-Agrees :
      (w : World d) (s : Stage)
      → (w.handle_fallback ≡ 0) ⊎ Lives d w w.handle_fallback
      → Fits d w s
      → Agrees w s
  Fits-Agrees w idle alive f = tt
  Fits-Agrees w creating alive f = tt
  Fits-Agrees w (made h) alive f = tt
  Fits-Agrees w (won h) alive f = tt
  Fits-Agrees w (lost h) alive f = tt
  Fits-Agrees w (reloaded h a) alive f = tt
  Fits-Agrees w (returned (ok h)) (inl unset) (same, pos) =
      absurd (ground (arith, same, pos, unset))
  Fits-Agrees w (returned (ok h)) (inr lives) (same, pos) = (sym same, subst (Lives d w) same lives)
  Fits-Agrees w (returned (err e)) alive f = tt
  Fits-Agrees w aborted alive f = absurd f

  -- The race for the fallback reactor: any number of threads call `fallback` at the same time, when
  -- nobody has set a fallback yet, and each may go on at any point. In every state that they reach no
  -- `assert!` has failed, and every handle that a call has returned is the one in `HANDLE_FALLBACK`, so
  -- all have the same, and its reactor lives. Threads can be spawned, and the rest of the process does not store to `HANDLE_FALLBACK`, drops no
  -- reactor and gives no address out again.
  pub fallback_race :
      (w : World d) (c : Race d) (i : ℕ)
      → w.handle_fallback ≡ 0
      → Reach d true (start d w) c
      → Agrees c.world (c.stage i)
  fallback_race w c i unset r =
      let v = Reach-Inv w c unset r in Fits-Agrees c.world (c.stage i) v.alive (v.fits i)
