-- ===== src/Reactor/Registration/Interference.antt =====
-- src/reactor/registration.rs, `Inner::poll_ready`, while other threads dispatch events to its source.
use romio.Base.{
  ℕ, ◌<◌, ◌^◌, ◌≡◌, Bool, true, false, ◌||◌, Bool-cases, inl, inr, ◌⊎◌, List, [], ◌∷◌, ◌++◌, arith,
  Waker,
}
use romio.Base.Bits.{usize_bits, test_bit, test_bit-bit_or, bit_or-lt}
use romio.Deps.{Deps}
use romio.Reactor.State.{Direction, ScheduledIo}
use romio.Reactor.Platform.{Platform, hup}
use romio.Reactor.Dispatch.{dispatch_io, wake_option}
use romio.Reactor.Woken.{Woken, Woken-append_left, Woken-append_right}
use romio.Reactor.Waits.{Waits, dispatch_io-Woken, dispatch_io-Waits}
use romio.Reactor.Registration.Source.{Gap, quiet}
use romio.Reactor.Registration.Poll.{Others, alone}
use romio.Reactor.Registration.Flags.{has, wakes}
use romio.Reactor.Registration.Abstract.{dispatch_io-readiness}

module _ (d : Deps) (p : Platform) where
  open d use {Ready}

  -- The flags that `PollEvented` looks for.
  abbrev pub plain : ℕ → Bool
  plain i = has d d.readable i || (has d d.writable i || has d (hup d p) i)

  -- What other threads may do to a source: add plain flags, and take a waker if they wake its task.
  pub record Polite (g : Gap d) : Type 0 where
    pub fits :
        (io : ScheduledIo d) → io.readiness < 2 ^ usize_bits → (g io).0.readiness < 2 ^ usize_bits
    pub adds :
        (io : ScheduledIo d) (i : ℕ)
        → test_bit (g io).0.readiness i ≡ true
        → plain i ≡ false
        → test_bit io.readiness i ≡ true
    pub keeps :
        (io : ScheduledIo d) (w : Waker) (dir : Direction)
        → Waits d p w dir io
        → Waits d p w dir (g io).0 ⊎ Woken w (g io).1

  quiet-Polite : Polite (quiet d)
  quiet-Polite = record {
    fits = λ io h. h;
    adds = λ io i on off. on;
    keeps = λ io w dir waits. inl waits;
  }

  pub record Calm (others : Others d) : Type 0 where
    pub first : Polite others.before_waker
    pub second : Polite others.before_retry

  pub alone-Calm : Calm (alone d)
  alone-Calm = record { first = quiet-Polite; second = quiet-Polite }

  -- Events that are dispatched to the source, one after the other, with flags that are all plain.
  abbrev pub dispatches : List Ready → Gap d
  dispatches [] io = (io, [])
  dispatches (event ∷ events) io =
      let (io₁, rd, wr) = dispatch_io d p event io in
      let (io₂, woken) = dispatches events io₁ in (io₂, (wake_option rd ++ wake_option wr) ++ woken)

  abbrev pub ArePlain : List Ready → Type 0
  ArePlain [] = Unit
  ArePlain (event ∷ events) = ((i : ℕ) → has d event i ≡ true → plain i ≡ true) × ArePlain events

  dispatches-fits :
      (events : List Ready) (io : ScheduledIo d)
      → io.readiness < 2 ^ usize_bits
      → (dispatches events io).0.readiness < 2 ^ usize_bits
  dispatches-fits [] io h = h
  dispatches-fits (event ∷ events) io h = dispatches-fits events (dispatch_io d p event io).0 (
      rw (dispatch_io-readiness d p event io)
        (bit_or-lt usize_bits io.readiness (d.as_usize event) h (d.as_usize_lt event)))

  dispatches-adds :
      (events : List Ready) (io : ScheduledIo d) (i : ℕ)
      → ArePlain events
      → test_bit (dispatches events io).0.readiness i ≡ true
      → plain i ≡ false
      → test_bit io.readiness i ≡ true
  dispatches-adds [] io i plains on off = on
  dispatches-adds (event ∷ events) io i (plain_event, plains) on off =
      let before = dispatches-adds events (dispatch_io d p event io).0 i plains on off in
      ground (
        arith,
        before,
        dispatch_io-readiness d p event io,
        test_bit-bit_or i io.readiness (d.as_usize event),
        plain_event i,
        off,
      )

  dispatches-keeps :
      (events : List Ready) (io : ScheduledIo d) (w : Waker) (dir : Direction)
      → Waits d p w dir io
      → Waits d p w dir (dispatches events io).0 ⊎ Woken w (dispatches events io).1
  dispatches-keeps [] io w dir waits = inl waits
  dispatches-keeps (event ∷ events) io w dir waits =
      let (io₁, rd, wr) = dispatch_io d p event io in
      let (io₂, woken) = dispatches events io₁ in
      elim (Bool-cases (wakes d p dir event)) [
        | inl hit ↦ inr (
            Woken-append_left w (wake_option rd ++ wake_option wr) woken
              (dispatch_io-Woken d p w dir event io hit waits))
        | inr miss ↦
            elim (dispatches-keeps events io₁ w dir
              (dispatch_io-Waits d p w dir event io miss waits)) [
                | inl still ↦ inl still
                | inr later ↦
                    inr (Woken-append_right w (wake_option rd ++ wake_option wr) woken later)
              ]
      ]

  -- So it may be that other threads dispatch events.
  pub dispatches-Polite : (events : List Ready) → ArePlain events → Polite (dispatches events)
  dispatches-Polite events plains = record {
    fits = dispatches-fits events;
    adds = λ io i. dispatches-adds events io i plains;
    keeps = dispatches-keeps events;
  }
