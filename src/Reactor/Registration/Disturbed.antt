-- ===== src/Reactor/Registration/Disturbed.antt =====
-- src/reactor/registration.rs, `Inner::poll_ready`: what it returns and leaves while other threads
-- dispatch events to its source.
use romio.Base.{
  ℕ, ◌<◌, ◌^◌, ◌≡◌, true, false, Bool-cases, inl, inr, ◌⊎◌, Option, none, some, List, arith, Waker,
}
use romio.Base.Bits.{usize_bits, test_bit}
use romio.Deps.{Deps}
use romio.Reactor.State.{Direction, ScheduledIo}
use romio.Reactor.Platform.{Platform, mask}
use romio.Reactor.Sources.{waker_of, set_waker}
use romio.Reactor.Woken.{Woken, Woken-append_right}
use romio.Reactor.Waits.{Waits}
use romio.Reactor.Registration.Source.{mask_no_hup, take_flags, retry, poll_io}
use romio.Reactor.Registration.Poll.{Others}
use romio.Reactor.Registration.Flags.{has, test_bit-take_flags, has-take_flags}
use romio.Reactor.Registration.Interference.{plain, Calm}
use romio.Reactor.Registration.Streams.{flags_of, flags_of-some_flags}
use romio.Reactor.Registration.Wakeup.Frame.{
  waker_of-set_waker, readiness-set_waker, waker_of-take_flags, take_flags-fits,
}

module _ (d : Deps) (p : Platform) (others : Others d) where
  abbrev pub disturbed :
      Option Waker → Direction → ScheduledIo d → Option d.Ready × ScheduledIo d × List Waker
  disturbed cx dir io = poll_io d p others.before_waker others.before_retry cx dir io

  -- The source after the first `fetch_and`, after the first gap, once the waker is registered, and
  -- after the second gap.
  abbrev taken : Direction → ScheduledIo d → ScheduledIo d
  taken dir io = (take_flags d p dir io).1

  abbrev gap : Direction → ScheduledIo d → ScheduledIo d
  gap dir io = (others.before_waker (taken dir io)).0

  abbrev armed : Waker → Direction → ScheduledIo d → ScheduledIo d
  armed w dir io = set_waker d dir (d.register_waker w (waker_of d dir (gap dir io))) (gap dir io)

  abbrev last : Waker → Direction → ScheduledIo d → ScheduledIo d
  last w dir io = (others.before_retry (armed w dir io)).0

  module _ (calm : Calm d p others) where
    last-fits :
        (w : Waker) (dir : Direction) (io : ScheduledIo d)
        → io.readiness < 2 ^ usize_bits
        → (last w dir io).readiness < 2 ^ usize_bits
    last-fits w dir io h =
        let fits = (calm.first).fits (taken dir io) (take_flags-fits d p dir io h) in
        (calm.second).fits (armed w dir io) (
          rw
            (readiness-set_waker d p dir (d.register_waker w (waker_of d dir (gap dir io)))
              (gap dir io))
            fits)

    -- A flag at the second `fetch_and` was there at the start, or is plain.
    last-bit :
        (w : Waker) (dir : Direction) (io : ScheduledIo d) (i : ℕ)
        → io.readiness < 2 ^ usize_bits
        → test_bit (last w dir io).readiness i ≡ true
        → (test_bit io.readiness i ≡ true) ⊎ (plain d p i ≡ true)
    last-bit w dir io i h on = elim (Bool-cases (plain d p i)) [
      | inl stays ↦ inr stays
      | inr other ↦
          let armed_on = (calm.second).adds (armed w dir io) i on other in
          let same =
            readiness-set_waker d p dir (d.register_waker w (waker_of d dir (gap dir io)))
              (gap dir io) in
          let taken_on = (calm.first).adds (taken dir io) i (rw same at armed_on) other in
          inl (ground (arith, taken_on, test_bit-take_flags d p dir io i h))
    ]

    last-keeps :
        (w : Waker) (dir : Direction) (io : ScheduledIo d)
        → Waits d p w dir (last w dir io) ⊎ Woken w (others.before_retry (armed w dir io)).1
    last-keeps w dir io = (calm.second).keeps (armed w dir io) w dir (
        rw
          (waker_of-set_waker d p dir (d.register_waker w (waker_of d dir (gap dir io)))
            (gap dir io))
          (d.take-register w _))

    -- What a poll leaves fits a word, and holds none of the flags that a poll takes.
    pub disturbed-leaves :
        (cx : Option Waker) (dir : Direction) (io : ScheduledIo d)
        → io.readiness < 2 ^ usize_bits
        → ((disturbed cx dir io).1.readiness < 2 ^ usize_bits)
          × ((i : ℕ)
              → test_bit (disturbed cx dir io).1.readiness i ≡ true
              → test_bit (mask_no_hup d p dir) i ≡ false)
    unfolding poll_io retry
    disturbed-leaves none dir io h = (
      take_flags-fits d p dir io h,
      λ i on. ground (arith, on, test_bit-take_flags d p dir io i h),
    )
    disturbed-leaves (some w) dir io h = elim (Bool-cases (d.is_empty (take_flags d p dir io).0)) [
      | inl nothing ↦ rw nothing (
        take_flags-fits d p dir (last w dir io) (last-fits w dir io h),
        λ i on.
            ground
              (arith, on, test_bit-take_flags d p dir (last w dir io) i (last-fits w dir io h)),
      )
      | inr flags ↦ rw flags (
        take_flags-fits d p dir io h,
        λ i on. ground (arith, on, test_bit-take_flags d p dir io i h),
      )
    ]

    -- The flags that a poll returns are flags of its direction that were there at the start, or plain.
    pub disturbed-flags :
        (w : Waker) (dir : Direction) (io : ScheduledIo d) (i : ℕ)
        → io.readiness < 2 ^ usize_bits
        → flags_of d (disturbed (some w) dir io).0 i ≡ true
        → (has d (mask d p dir) i ≡ true)
          × ((test_bit io.readiness i ≡ true) ⊎ (plain d p i ≡ true))
    unfolding poll_io retry
    disturbed-flags w dir io i h on = elim (Bool-cases (d.is_empty (take_flags d p dir io).0)) [
      | inl nothing ↦
          let seen : has d (take_flags d p dir (last w dir io)).0 i ≡ true = ground (
            arith,
            on,
            nothing,
            flags_of-some_flags d p (take_flags d p dir (last w dir io)).0 i,
          ) in
          let split = has-take_flags d p dir (last w dir io) i (last-fits w dir io h) in
          (ground (arith, seen, split), last-bit w dir io i h (ground (arith, seen, split)))
      | inr flags ↦
          let seen : has d (take_flags d p dir io).0 i ≡ true = ground (arith, on, flags) in
          let split = has-take_flags d p dir io i h in
          (ground (arith, seen, split), inl (ground (arith, seen, split)))
    ]

    -- A poll that returns nothing leaves its task's waker registered, or another thread has woken it.
    pub disturbed-arms :
        (w : Waker) (dir : Direction) (io : ScheduledIo d)
        → (disturbed (some w) dir io).0 ≡ none
        → Waits d p w dir (disturbed (some w) dir io).1 ⊎ Woken w (disturbed (some w) dir io).2
    unfolding poll_io retry
    disturbed-arms w dir io e = elim (Bool-cases (d.is_empty (take_flags d p dir io).0)) [
      | inr flags ↦ absurd (ground (arith, flags, e))
      | inl nothing ↦ elim (last-keeps w dir io) [
        | inl waits ↦ inl (rw (nothing, waker_of-take_flags d p dir dir (last w dir io)) waits)
        | inr woken ↦
            inr (rw nothing (Woken-append_right w (others.before_waker (taken dir io)).1 _ woken))
      ]
    ]
