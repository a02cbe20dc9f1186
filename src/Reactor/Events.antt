-- ===== src/Reactor/Events.antt =====
-- src/reactor/mod.rs: what a turn of the event loop does to a source.
use romio.Base.{
  ℕ, ◌<◌, ◌^◌, ◌≡◌, ◌≢◌, refl, ◌∙◌, Bool, false, ◌&&◌, ◌||◌, Bool-cases, inl, inr, ◌⊎◌, Option,
  some, List, [], ◌∷◌, ◌++◌, IoResult-cases, arith, ◌==◌, ok, err, IoError, Outcome, done, panics,
  subst,
}
use romio.Base.Bits.{usize_bits, test_bit, test_bit-bit_or}
use romio.Deps.{Deps}
use romio.Deps.Kernel.{Event}
use romio.Reactor.State.{ScheduledIo, Inner, token_wakeup}
use romio.Reactor.Platform.{Platform}
use romio.Reactor.Tokens.{source_token, token_key}
use romio.Reactor.Tokens.Packing.{source_token-parts, source_token-ne-wakeup}
use romio.Reactor.Dispatch.{dispatch, dispatch_io, set_flags, take_reader, take_writer}
use romio.Reactor.Turn.{Loop, handle_event, handle_events, poll, turn}
use romio.Reactor.Valid.{IsValid, dispatch-IsValid}
use romio.Reactor.Delivery.{dispatch-live}
use romio.Reactor.Registration.Flags.{has}
use romio.Reactor.Registration.Abstract.{dispatch_io-readiness}

module _ (d : Deps) (p : Platform) where
  open d use {get, Ready}

  -- The flags that events with this token carry, all together.
  unfoldable pub sent : ℕ → List (Event Ready) → ℕ → Bool
  sent token [] i = false
  sent token (event ∷ events) i =
      (event.token == token && has d event.readiness i) || sent token events i

  -- The tokens of the events are words.
  abbrev pub AreWords : List (Event Ready) → Type 0
  AreWords [] = Unit
  AreWords (event ∷ events) = (event.token < 2 ^ usize_bits) × AreWords events

  -- The table is well formed, and the source under this key has in addition these flags.
  abbrev pub Gains : ℕ → ℕ → ScheduledIo d → (ℕ → Bool) → Inner d → Type 0
  Gains wakeup k io flags inner =
      IsValid d inner
      × (inner.wakeup ≡ wakeup)
      × ((io' : ScheduledIo d) × (get k inner.io_dispatch ≡ some io')
          × (io'.aba_guard ≡ io.aba_guard)
          × ((i : ℕ) → test_bit io'.readiness i ≡ (test_bit io.readiness i || flags i)))

  pub dispatch_io-guard :
      (ready : Ready) (io : ScheduledIo d) → (dispatch_io d p ready io).0.aba_guard ≡ io.aba_guard
  unfolding dispatch_io set_flags take_reader take_writer
  dispatch_io-guard ready io = ground arith

  -- An event with another token leaves the source as it is.
  pub dispatch-other :
      (k token : ℕ) (ready : Ready) (inner : Inner d) (io : ScheduledIo d)
      → token < 2 ^ usize_bits
      → get k inner.io_dispatch ≡ some io
      → token ≢ source_token io.aba_guard k
      → get k (dispatch d p token ready inner).0.io_dispatch ≡ some io
  unfolding dispatch
  dispatch-other k token ready inner io word there other = ground (
    arith,
    source_token-parts token word,
    d.get-modify (token_key token) (λ x. (dispatch_io d p ready x).0) inner.io_dispatch k,
  )

  dispatch-wakeup :
      (token : ℕ) (ready : Ready) (inner : Inner d)
      → (dispatch d p token ready inner).0.wakeup ≡ inner.wakeup
  unfolding dispatch
  dispatch-wakeup token ready inner = ground arith

  dispatch-Gains :
      (k token : ℕ) (ready : Ready) (inner : Inner d) (io : ScheduledIo d)
      → token < 2 ^ usize_bits
      → IsValid d inner
      → get k inner.io_dispatch ≡ some io
      → Gains inner.wakeup k io
          (λ i. token == source_token io.aba_guard k && has d ready i)
          (dispatch d p token ready inner).0
  dispatch-Gains k token ready inner io word v there = (
    dispatch-IsValid d p token ready inner v,
    dispatch-wakeup token ready inner,
    elim (Bool-cases (token == source_token io.aba_guard k)) [
      | inl same ↦
          let hit : token ≡ source_token io.aba_guard k = ground (arith, same) in
          (
            (dispatch_io d p ready io).0,
            rw hit (dispatch-live d p k ready inner io v there).0,
            dispatch_io-guard ready io,
            λ i. ground (
              arith,
              same,
              dispatch_io-readiness d p ready io,
              test_bit-bit_or i io.readiness (d.as_usize ready),
            ),
          )
      | inr other ↦ (
        io,
        dispatch-other k token ready inner io word there (ground (arith, other)),
        refl,
        λ i. ground (arith, other),
      )
    ],
  )

  -- At some state of the operating system the readiness of the wake-up cannot be reset.
  abbrev pub CannotReset : ℕ → Type 0
  CannotReset wakeup = (os : d.Os) × (e : IoError) × ((d.set_readiness wakeup d.empty os).0 ≡ err e)

  -- The outcomes of code that handles events: a panic, or a source that has gained these flags.
  abbrev Handles : ℕ → ℕ → ScheduledIo d → (ℕ → Bool) → Outcome (Loop d) → Type 0
  Handles wakeup k io flags o =
      (CannotReset wakeup × (o ≡ panics))
      ⊎ ((s : Loop d) × (o ≡ done s) × Gains wakeup k io flags s.inner)

  handle_event-Handles :
      (k : ℕ) (event : Event Ready) (s : Loop d) (io : ScheduledIo d)
      → event.token < 2 ^ usize_bits
      → IsValid d s.inner
      → get k s.inner.io_dispatch ≡ some io
      → Handles s.inner.wakeup k io
          (λ i. event.token == source_token io.aba_guard k && has d event.readiness i)
          (handle_event d p event s)
  unfolding handle_event
  handle_event-Handles k event s io word v there = elim (Bool-cases (event.token == token_wakeup)) [
    | inr other ↦ inr (
      record s {
        inner = (dispatch d p event.token event.readiness s.inner).0;
        woken = s.woken ++ (dispatch d p event.token event.readiness s.inner).1;
      },
      ground (arith, other),
      dispatch-Gains k event.token event.readiness s.inner io word v there,
    )
    | inl ours ↦
        let (below, entry) = v.entries k io there in
        let (res, os) = d.set_readiness s.inner.wakeup d.empty s.os in
        elim (IoResult-cases res) [
          | inl (done_now, fine) ↦ inr (
            record s { os = os },
            ground (arith, ours, fine),
            (
              v,
              refl,
              (
                io,
                there,
                refl,
                λ i. ground (arith, ours, source_token-ne-wakeup io.aba_guard k entry.guard below),
              ),
            ),
          )
          | inr (e, bad) ↦ inl ((s.os, e, bad), ground (arith, ours, bad))
        ]
  ]

  handle_events-Handles :
      (k : ℕ) (events : List (Event Ready)) (s : Loop d) (io : ScheduledIo d)
      → AreWords events
      → IsValid d s.inner
      → get k s.inner.io_dispatch ≡ some io
      → Handles s.inner.wakeup k io
          (sent (source_token io.aba_guard k) events)
          (handle_events d p events s)
  unfolding handle_events sent
  handle_events-Handles k [] s io words v there =
      inr (s, refl, (v, refl, (io, there, refl, λ i. ground arith)))
  handle_events-Handles k (event ∷ events) s io (word, words) v there =
      elim (handle_event-Handles k event s io word v there) [
        | inl (fails, bad) ↦ inl (fails, ground (arith, bad))
        | inr (s₁, first, (v₁, wakeup₁, (io₁, there₁, guard₁, flags₁))) ↦
            elim (handle_events-Handles k events s₁ io₁ words v₁ there₁) [
              | inl (fails, bad) ↦ inl (subst CannotReset wakeup₁ fails, ground (arith, first, bad))
              | inr (s₂, rest, (v₂, wakeup₂, (io₂, there₂, guard₂, flags₂))) ↦ inr (
                s₂,
                ground (arith, first, rest),
                (
                  v₂,
                  wakeup₂ ∙ wakeup₁,
                  (io₂, there₂, guard₂ ∙ guard₁, λ i. ground (arith, flags₁ i, flags₂ i, guard₁)),
                ),
              )
            ]
      ]

  -- A turn of the event loop reaches every source: if `mio::Poll::poll` returns these events,
  -- whose tokens are words, and the table is well formed, then `turn` returns `Ok` with a table that is
  -- well formed, in which every source that was there is under its key, with its guard, and has in
  -- addition exactly the flags of the events with its token. It may panic instead, but only if the
  -- operating system can refuse to reset the readiness of the reactor's own wake-up.
  pub turn-Gains :
      (max_wait : Option ℕ) (events : List (Event Ready)) (os : d.Os) (k : ℕ) (s : Loop d)
      (io : ScheduledIo d)
      → d.poll_wait s.inner.io max_wait s.os ≡ (ok events, os)
      → AreWords events
      → IsValid d s.inner
      → get k s.inner.io_dispatch ≡ some io
      → (CannotReset s.inner.wakeup × (turn d p max_wait s ≡ panics))
        ⊎ ((s' : Loop d) × (turn d p max_wait s ≡ done (ok tt, s'))
            × Gains s.inner.wakeup k io (sent (source_token io.aba_guard k) events) s'.inner)
  unfolding turn poll
  turn-Gains max_wait events os k s io waited words v there =
      elim (handle_events-Handles k events (record s { os = os }) io words v there) [
        | inl (fails, bad) ↦ inl (fails, ground (arith, waited, bad))
        | inr (s', handled, gains) ↦ inr (s', ground (arith, waited, handled), gains)
      ]
