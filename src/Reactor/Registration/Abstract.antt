-- ===== src/Reactor/Registration/Abstract.antt =====
-- src/reactor/mod.rs and src/reactor/registration.rs: a source as a set of flags. Events add flags, and
-- a poll of a direction takes those that it looks for, all but HUP.
use romio.Base.{
  ℕ, ◌<◌, ◌^◌, ◌≡◌, Bool, not, ◌&&◌, ◌||◌, arith, Option, List, [], ◌∷◌, Waker, bit_or,
}
use romio.Base.Bits.{usize_bits, test_bit, test_bit-bit_or, bit_or-lt}
use romio.Deps.{Deps}
use romio.Reactor.State.{Direction, read, write, ScheduledIo}
use romio.Reactor.Platform.{Platform, hup, mask}
use romio.Reactor.Dispatch.{dispatch_io, set_flags, take_reader, take_writer}
use romio.Reactor.Sources.{register_io, wake_io, set_waker}
use romio.Reactor.Registration.Source.{poll_io, quiet}
use romio.Reactor.Registration.Flags.{has}
use romio.Reactor.Registration.Streams.{flags_of, poll_io-flags, poll_io-readiness, mask_no_hup-has}

-- What happens to a source: an event is dispatched to it, a task polls it, or a task that waited for
-- the registration is registered with it.
pub data Op (d : Deps) : Type 0 where
  event : d.Ready → Op d
  polls : Option Waker → Direction → Op d
  registers : Waker → Direction → Op d

abbrev pub Flags : Type 0
Flags = ℕ → Bool

module _ (d : Deps) (p : Platform) where
  -- What the polls return, in order.
  unfoldable pub results : List (Op d) → ScheduledIo d → List (Option d.Ready)
  results [] io = []
  results (event ready ∷ ops) io = results ops (dispatch_io d p ready io).0
  results (polls cx dir ∷ ops) io =
      let (r, io', woken) = poll_io d p (quiet d) (quiet d) cx dir io in r ∷ results ops io'
  results (registers w dir ∷ ops) io = results ops (register_io d w dir io).0

  -- The flags that a direction looks for, and those that a poll of it consumes.
  abbrev pub looks : Direction → Flags
  looks dir i = has d (mask d p dir) i

  abbrev pub consumes : Direction → Flags
  consumes dir i = looks dir i && not (has d (hup d p) i)

  -- The same for a set of flags.
  unfoldable pub flag_results : List (Op d) → Flags → List Flags
  flag_results [] s = []
  flag_results (event ready ∷ ops) s = flag_results ops (λ i. s i || has d ready i)
  flag_results (polls cx dir ∷ ops) s =
      (λ i. looks dir i && s i) ∷ flag_results ops (λ i. s i && not (consumes dir i))
  flag_results (registers w dir ∷ ops) s = flag_results ops s

  -- The two lists are as long, and what each poll returns is the set beside it.
  abbrev pub Agree : List (Option d.Ready) → List Flags → Type 0
  Agree [] [] = Unit
  Agree (r ∷ rs) (s ∷ ss) = ((i : ℕ) → flags_of d r i ≡ s i) × Agree rs ss
  Agree [] (s ∷ ss) = ⊥
  Agree (r ∷ rs) [] = ⊥

  pub dispatch_io-readiness :
      (ready : d.Ready) (io : ScheduledIo d)
      → (dispatch_io d p ready io).0.readiness ≡ bit_or io.readiness (d.as_usize ready)
  unfolding dispatch_io set_flags take_reader take_writer
  dispatch_io-readiness ready io = ground arith

  register_io-readiness :
      (w : Waker) (dir : Direction) (io : ScheduledIo d)
      → (register_io d w dir io).0.readiness ≡ io.readiness
  unfolding register_io wake_io set_waker
  register_io-readiness w read io = ground arith
  register_io-readiness w write io = ground arith

  -- A source refines a set of flags: for any sequence of events, polls and registrations, with nobody
  -- else at work during a poll, each poll returns the flags of the set that its direction looks for, if
  -- at first the source's readiness, which fits a word, has the flags of the set.
  pub results-refines :
      (ops : List (Op d)) (io : ScheduledIo d) (s : Flags)
      → io.readiness < 2 ^ usize_bits
      → ((i : ℕ) → test_bit io.readiness i ≡ s i)
      → Agree (results ops io) (flag_results ops s)
  unfolding results flag_results
  results-refines [] io s fits same = tt
  results-refines (event ready ∷ ops) io s fits same =
      results-refines ops _ _
        (rw (dispatch_io-readiness ready io)
          (bit_or-lt usize_bits io.readiness _ fits (d.as_usize_lt ready)))
        (λ i. ground (
          arith,
          dispatch_io-readiness ready io,
          test_bit-bit_or i io.readiness (d.as_usize ready),
          same i,
        ))
  results-refines (polls cx dir ∷ ops) io s fits same = (
    λ i. ground (arith, poll_io-flags d p cx dir io i fits, same i),
    results-refines ops _ _ (poll_io-readiness d p cx dir io 0 fits).0 (λ i.
        ground (arith, poll_io-readiness d p cx dir io i fits, mask_no_hup-has d p dir i, same i)),
  )
  results-refines (registers w dir ∷ ops) io s fits same =
      results-refines ops _ _ (rw (register_io-readiness w dir io) fits)
        (λ i. rw (register_io-readiness w dir io) (same i))
