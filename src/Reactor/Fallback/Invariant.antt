-- ===== src/Reactor/Fallback/Invariant.antt =====
-- src/reactor/mod.rs, `HandlePriv::fallback`: what holds while threads race.
use romio.Base.{
  subst, ap, ℕ, ◌≤◌, ◌<◌, ◌≡◌, ◌≢◌, refl, Bool-cases, Option-cases, inl, inr, ◌⊎◌, some, ok, err,
  arith, ◌==◌,
}
use romio.Deps.{Deps}
use romio.Reactor.State.{Inner}
use romio.Reactor.World.{World, address, update, new_reactor, drop_reactor}
use romio.Reactor.Fallback.Race.{
  Stage, idle, creating, made, won, lost, reloaded, returned, aborted, Race,
}

module _ (d : Deps) where
  -- There is a reactor at this address.
  abbrev pub Lives : World d → ℕ → Type 0
  Lives w a = (inner : Inner d) × (w.reactors a ≡ some inner)

  -- The reactor that a thread has made and that is not, or not yet, the fallback; 0 without one.
  unfoldable pub own : Stage → ℕ
  own idle = 0
  own creating = 0
  own (made h) = h
  own (won h) = 0
  own (lost h) = h
  own (reloaded h v) = h
  own (returned r) = 0
  own aborted = 0

  abbrev pub Shared : World d → ℕ → Type 0
  Shared w h = (w.handle_fallback ≡ h) × (h ≢ 0)

  abbrev pub Fits : World d → Stage → Type 0
  Fits w idle = Unit
  Fits w creating = Unit
  Fits w (made h) = (h ≢ 0) × Lives w h × (w.handle_fallback ≢ h)
  Fits w (won h) = Shared w h
  Fits w (lost h) = (h ≢ 0) × (w.handle_fallback ≢ h) × (w.handle_fallback ≢ 0)
  Fits w (reloaded h v) = (h ≢ 0) × (w.handle_fallback ≢ h) × Shared w v
  Fits w (returned (ok h)) = Shared w h
  Fits w (returned (err e)) = Unit
  Fits w aborted = ⊥

  -- No two threads have the same reactor.
  abbrev pub Apart : (ℕ → Stage) → Type 0
  Apart stage = (i j : ℕ) → i ≢ j → own (stage i) ≢ 0 → own (stage i) ≢ own (stage j)

  update-Apart :
      (i : ℕ) (s : Stage) (stage : ℕ → Stage) (top : ℕ)
      → Apart stage
      → ((j : ℕ) → own (stage j) < top)
      → (own s ≡ 0) ⊎ ((own s ≡ own (stage i)) ⊎ (top ≤ own s))
      → Apart (update stage i s)
  update-Apart i s stage top apart old from j k differ pos = elim (Bool-cases (i == j)) [
    | inl me ↦ elim (Bool-cases (i == k)) [
      | inl both ↦ absurd (ground (arith, me, both, differ))
      | inr you ↦ ground (arith, me, you, pos, from, apart i k, old k)
    ]
    | inr you ↦ elim (Bool-cases (i == k)) [
      | inl me ↦ ground (arith, me, you, pos, from, apart j i, old j)
      | inr third ↦ ground (arith, you, third, pos, apart j k differ)
    ]
  ]

  pub record Inv (c : Race d) : Type 0 where
    pub fits : (i : ℕ) → Fits c.world (c.stage i)
    pub apart : Apart c.stage
    pub old : (i : ℕ) → own (c.stage i) < address c.world.allocated
    pub fallback_old : c.world.handle_fallback < address c.world.allocated
    pub alive : (c.world.handle_fallback ≡ 0) ⊎ Lives c.world c.world.handle_fallback

  -- What a step that does not store to `HANDLE_FALLBACK` leaves to the other threads.
  abbrev pub Spares : ℕ → World d → World d → Type 0
  Spares x w w' =
      (w'.handle_fallback ≡ w.handle_fallback)
      × (w.allocated ≤ w'.allocated)
      × ((a : ℕ) → a ≢ x → Lives w a → Lives w' a)

  pub Fits-Spares :
      (x : ℕ) (w w' : World d) (s : Stage)
      → Spares x w w'
      → (own s ≢ 0 → own s ≢ x)
      → Fits w s
      → Fits w' s
  unfolding own
  Fits-Spares x w w' idle sp other f = tt
  Fits-Spares x w w' creating sp other f = tt
  Fits-Spares x w w' (made h) (same, grown, kept) other (pos, lives, differs) =
      (pos, kept h (other pos) lives, ground (arith, same, differs))
  Fits-Spares x w w' (won h) (same, grown, kept) other f = ground (arith, same, f)
  Fits-Spares x w w' (lost h) (same, grown, kept) other (pos, differs, set) =
      (pos, ground (arith, same, differs), ground (arith, same, set))
  Fits-Spares x w w' (reloaded h v) (same, grown, kept) other (pos, differs, set) =
      (pos, ground (arith, same, differs), ground (arith, same, set))
  Fits-Spares x w w' (returned (ok h)) (same, grown, kept) other f = ground (arith, same, f)
  Fits-Spares x w w' (returned (err e)) sp other f = tt
  Fits-Spares x w w' aborted sp other f = absurd f

  -- One thread takes a step that spares the others.
  pub moves-Inv :
      (i : ℕ) (s : Stage) (w : World d) (c : Race d)
      → Inv c
      → Spares (own (c.stage i)) c.world w
      → Fits w s
      → (own s ≡ 0) ⊎ ((own s ≡ own (c.stage i)) ⊎ (address c.world.allocated ≤ own s))
      → own s < address w.allocated
      → (own (c.stage i) ≡ c.world.handle_fallback → own (c.stage i) ≡ 0)
      → Inv (record { world = w; stage = update c.stage i s })
  moves-Inv i s w c v (same, grown, kept) fits_s from below own_differs = record {
    fits = λ j. elim (Bool-cases (i == j)) [
      | inl me ↦ rw me fits_s
      | inr you ↦ rw you (
          Fits-Spares (own (c.stage i)) c.world w (c.stage j) (same, grown, kept)
            (λ pos. v.apart j i (ground (arith, you)) pos) (v.fits j))
    ];
    apart = update-Apart i s c.stage (address c.world.allocated) v.apart v.old from;
    old = λ j. elim (Bool-cases (i == j)) [
      | inl me ↦ rw me below
      | inr you ↦ rw you (omega (arith, v.old j, grown))
    ];
    fallback_old = omega (arith, v.fallback_old, same, grown);
    alive = elim v.alive [
      | inl unset ↦ inl (omega (arith, same, unset))
      | inr lives ↦ elim (Bool-cases (own (c.stage i) == c.world.handle_fallback)) [
        | inl mine ↦ inl (ground (arith, same, mine, own_differs))
        | inr other ↦ inr (rw same (kept c.world.handle_fallback (ground (arith, other)) lives))
      ]
    ];
  }

  pub Spares-refl : (x : ℕ) (w : World d) → Spares x w w
  Spares-refl x w = (refl, omega arith, λ a other lives. lives)

  pub new_reactor-Spares :
      (inner : Inner d) (os : d.Os) (w : World d)
      → Spares 0 w (new_reactor d inner (record w { os = os })).1
        × Lives (new_reactor d inner (record w { os = os })).1 (address w.allocated)
  unfolding new_reactor
  new_reactor-Spares inner os w = (
    (
      refl,
      omega arith,
      λ a other lives. elim (Bool-cases (address w.allocated == a)) [
        | inl new ↦ (inner, ground (arith, new))
        | inr old ↦ (lives.0, ground (arith, old, lives.1))
      ],
    ),
    (inner, ground arith),
  )

  pub drop_reactor-Spares : (h : ℕ) (w : World d) → Spares h w (drop_reactor d h w)
  unfolding drop_reactor
  drop_reactor-Spares h w = elim (Option-cases (w.reactors h)) [
    | inl gone ↦ rw (drop_reactor, gone) (Spares-refl h w)
    | inr (inner, there) ↦
        rw (drop_reactor, there)
          (refl, omega arith, λ a other lives. (lives.0, ground (arith, other, lives.1)))
  ]

  -- The compare-exchange of the thread that wins.
  pub wins-Inv :
      (i h : ℕ) (c : Race d)
      → Inv c
      → c.stage i ≡ made h
      → c.world.handle_fallback ≡ 0
      → Inv (record {
        world = record (c.world) { handle_fallback = h };
        stage = update c.stage i (won h);
      })
  unfolding own
  wins-Inv i h c v at_made unset =
      let mine : Fits c.world (made h) = subst (Fits c.world) at_made (v.fits i) in
      let owned : own (c.stage i) ≡ h = ap own at_made in
      record {
        fits = λ j. elim (Bool-cases (i == j)) [
          | inl me ↦ rw me (refl, mine.0)
          | inr you ↦ rw you (
              others (c.stage j) (λ pos. rw owned at (v.apart j i (ground (arith, you)) pos))
                (v.fits j))
        ];
        apart = update-Apart i (won h) c.stage (address c.world.allocated) v.apart v.old (inl refl);
        old = λ j. elim (Bool-cases (i == j)) [
          | inl me ↦ rw me (omega arith)
          | inr you ↦ rw you (v.old j)
        ];
        fallback_old = omega (arith, v.old i, owned);
        alive = inr (mine.1);
      }
    where
      others :
          (s : Stage)
          → (own s ≢ 0 → own s ≢ h)
          → Fits c.world s
          → Fits (record (c.world) { handle_fallback = h }) s
      others idle other f = tt
      others creating other f = tt
      others (made a) other (pos, lives, differs) = (pos, lives, ground (arith, other, pos))
      others (won a) other f = ground (arith, unset, f)
      others (lost a) other f = ground (arith, unset, f)
      others (reloaded a b) other f = ground (arith, unset, f)
      others (returned (ok a)) other f = ground (arith, unset, f)
      others (returned (err e)) other f = tt
      others aborted other f = absurd f
