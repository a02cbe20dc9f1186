-- ===== src/Reactor/Registration/Streams.antt =====
-- src/reactor/registration.rs, `Inner::poll_ready`: the read stream and the write stream of a source.
use romio.Base.{
  ℕ, ◌<◌, ◌^◌, ◌≡◌, ap, Bool, true, false, not, ◌&&◌, Bool-cases, arith, inl, inr, Option, none,
  some, [], bit_and, Waker,
}
use romio.Base.Bits.{usize_bits, test_bit, test_bit-bit_and}
use romio.Deps.{Deps}
use romio.Reactor.State.{Direction, read, write, ScheduledIo}
use romio.Reactor.Platform.{Platform, unix, windows, hup, mask}
use romio.Reactor.Sources.{waker_of, set_waker, register_io, wake_flags}
use romio.Reactor.Registration.Source.{quiet, mask_no_hup, take_flags, some_flags, retry, poll_io}
use romio.Reactor.Registration.Flags.{
  other, has, has-or, has-sub, has-empty, has-is_empty, mask_no_hup-other, writable-not_hup,
  test_bit-take_flags, has-take_flags,
}
use romio.Reactor.Registration.Wakeup.Frame.{
  waker_of-set_waker, readiness-set_waker, waker_of-take_flags, take_flags-fits,
}

module _ (d : Deps) where
  -- The flags that a poll returned.
  abbrev pub flags_of : Option d.Ready → ℕ → Bool
  flags_of none i = false
  flags_of (some r) i = has d r i

  has-of_empty : (r : d.Ready) (i : ℕ) → d.is_empty r ≡ true → has d r i ≡ false
  has-of_empty r i e = ground (arith, has-is_empty d r i)

  hup_subset : (p : Platform) (i : ℕ) → has d (hup d p) i ≡ true → has d d.all i ≡ true
  unfolding hup
  hup_subset unix i h = ground (
    arith,
    test_bit-bit_and i (d.as_usize d.unix_hup) (d.as_usize d.all),
    ap (λ n. test_bit n i) d.all-hup,
  )
  hup_subset windows i h = ground (arith, has-empty d i)

module _ (d : Deps) (p : Platform) where
  open d use {Ready}

  pub flags_of-some_flags : (r : Ready) (i : ℕ) → flags_of d (some_flags d p r) i ≡ has d r i
  unfolding some_flags
  flags_of-some_flags r i = ground (arith, has-of_empty d r i)

  -- `mask_no_hup` holds the flags of the mask but HUP, and the mask holds HUP.
  pub mask_no_hup-has :
      (dir : Direction) (i : ℕ)
      → test_bit (mask_no_hup d p dir) i ≡ (has d (mask d p dir) i && not (has d (hup d p) i))
  unfolding mask_no_hup
  mask_no_hup-has dir i = has-sub d (mask d p dir) (hup d p) i

  pub mask-hup :
      (dir : Direction) (i : ℕ) → has d (hup d p) i ≡ true → has d (mask d p dir) i ≡ true
  unfolding mask
  mask-hup read i h =
      ground (arith, has-sub d d.all d.writable i, hup_subset d p i h, writable-not_hup d p i)
  mask-hup write i h = ground (arith, has-or d d.writable (hup d p) i)

  -- The source between the two `fetch_and`s, with nobody else at work.
  abbrev retried : Waker → Direction → ScheduledIo d → ScheduledIo d
  retried w dir io =
      set_waker d dir (d.register_waker w (waker_of d dir (take_flags d p dir io).1))
        (take_flags d p dir io).1

  retried-readiness :
      (w : Waker) (dir : Direction) (io : ScheduledIo d)
      → (retried w dir io).readiness ≡ (take_flags d p dir io).1.readiness
  retried-readiness w dir io = readiness-set_waker d p dir _ (take_flags d p dir io).1

  retried-fits :
      (w : Waker) (dir : Direction) (io : ScheduledIo d)
      → io.readiness < 2 ^ usize_bits
      → (retried w dir io).readiness < 2 ^ usize_bits
  retried-fits w dir io h = rw (retried-readiness w dir io) (take_flags-fits d p dir io h)

  retried-bit :
      (w : Waker) (dir : Direction) (io : ScheduledIo d) (i : ℕ)
      → io.readiness < 2 ^ usize_bits
      → test_bit (retried w dir io).readiness i
        ≡ (test_bit io.readiness i && not (test_bit (mask_no_hup d p dir) i))
  retried-bit w dir io i h = rw (retried-readiness w dir io) (test_bit-take_flags d p dir io i h)

  -- A poll with nobody else at work returns the source's flags of its direction.
  pub poll_io-flags :
      (cx : Option Waker) (dir : Direction) (io : ScheduledIo d) (i : ℕ)
      → io.readiness < 2 ^ usize_bits
      → flags_of d (poll_io d p (quiet d) (quiet d) cx dir io).0 i
        ≡ (has d (mask d p dir) i && test_bit io.readiness i)
  unfolding poll_io retry
  poll_io-flags none dir io i h =
      ground (arith, flags_of-some_flags (take_flags d p dir io).0 i, has-take_flags d p dir io i h)
  poll_io-flags (some w) dir io i h = elim (Bool-cases (d.is_empty (take_flags d p dir io).0)) [
    | inl nothing ↦ ground (
      arith,
      flags_of-some_flags (take_flags d p dir (retried w dir io)).0 i,
      has-of_empty d (take_flags d p dir io).0 i nothing,
      has-take_flags d p dir io i h,
      has-take_flags d p dir (retried w dir io) i (retried-fits w dir io h),
      retried-bit w dir io i h,
    )
    | inr flags ↦ rw flags (has-take_flags d p dir io i h)
  ]

  -- It takes those flags from the source, HUP excepted.
  pub poll_io-readiness :
      (cx : Option Waker) (dir : Direction) (io : ScheduledIo d) (i : ℕ)
      → io.readiness < 2 ^ usize_bits
      → let after = (poll_io d p (quiet d) (quiet d) cx dir io).1 in
        (after.readiness < 2 ^ usize_bits)
        × (test_bit after.readiness i
            ≡ (test_bit io.readiness i && not (test_bit (mask_no_hup d p dir) i)))
  unfolding poll_io retry
  poll_io-readiness none dir io i h =
      (take_flags-fits d p dir io h, test_bit-take_flags d p dir io i h)
  poll_io-readiness (some w) dir io i h = elim (Bool-cases (d.is_empty (take_flags d p dir io).0)) [
    | inl nothing ↦ rw nothing (
      take_flags-fits d p dir (retried w dir io) (retried-fits w dir io h),
      ground (
        arith,
        test_bit-take_flags d p dir (retried w dir io) i (retried-fits w dir io h),
        retried-bit w dir io i h,
      ),
    )
    | inr flags ↦ rw flags (take_flags-fits d p dir io h, test_bit-take_flags d p dir io i h)
  ]

  -- The streams are independent: a poll of one direction, with a task or without, changes nothing
  -- in what the next poll of the other direction returns.
  pub streams_independent :
      (cx cx' : Option Waker) (dir : Direction) (io : ScheduledIo d) (i : ℕ)
      → io.readiness < 2 ^ usize_bits
      → let after = (poll_io d p (quiet d) (quiet d) cx dir io).1 in
        flags_of d (poll_io d p (quiet d) (quiet d) cx' (other dir) after).0 i
        ≡ flags_of d (poll_io d p (quiet d) (quiet d) cx' (other dir) io).0 i
  streams_independent cx cx' dir io i h =
      let (fits, left) = poll_io-readiness cx dir io i h in
      ground (
        arith,
        poll_io-flags cx' (other dir) io i h,
        poll_io-flags cx' (other dir) (poll_io d p (quiet d) (quiet d) cx dir io).1 i fits,
        unseen dir,
      )
    where
      unseen :
          (dir : Direction)
          → has d (mask d p (other dir)) i ≡ true
          → test_bit (mask_no_hup d p dir) i ≡ false
      unseen read s = mask_no_hup-other d p write i s
      unseen write s = mask_no_hup-other d p read i s

  -- A poll consumes what it returns, HUP excepted: the next poll of the same direction returns
  -- exactly the HUP flags of the first.
  pub hup_stays :
      (cx cx' : Option Waker) (dir : Direction) (io : ScheduledIo d) (i : ℕ)
      → io.readiness < 2 ^ usize_bits
      → let first = poll_io d p (quiet d) (quiet d) cx dir io in
        flags_of d (poll_io d p (quiet d) (quiet d) cx' dir first.1).0 i
        ≡ (flags_of d first.0 i && has d (hup d p) i)
  hup_stays cx cx' dir io i h =
      let (fits, left) = poll_io-readiness cx dir io i h in
      ground (
        arith,
        poll_io-flags cx dir io i h,
        poll_io-flags cx' dir (poll_io d p (quiet d) (quiet d) cx dir io).1 i fits,
        mask_no_hup-has dir i,
        left,
      )

  -- A poll that returns nothing, with nobody else at work, leaves its task's waker registered for
  -- its direction.
  pub poll_io-arms :
      (w : Waker) (dir : Direction) (io : ScheduledIo d)
      → (poll_io d p (quiet d) (quiet d) (some w) dir io).0 ≡ none
      → (d.take_waker (waker_of d dir (poll_io d p (quiet d) (quiet d) (some w) dir io).1)).0
        ≡ some w
  unfolding poll_io retry
  poll_io-arms w dir io e = elim (Bool-cases (d.is_empty (take_flags d p dir io).0)) [
    | inl nothing ↦
        rw
          (
            nothing,
            waker_of-take_flags d p dir dir (retried w dir io),
            waker_of-set_waker d p dir _ (take_flags d p dir io).1,
          )
          (d.take-register w _)
    | inr flags ↦ ground arith
  ]

  -- `Inner::register` looks for `writable` alone, while `poll_ready` also looks for HUP: on a source
  -- that hung up and is not writable, it leaves a writer asleep that `poll_ready` would answer.
  pub register_misses_hup :
      (w : Waker) (io : ScheduledIo d) (i : ℕ)
      → io.readiness < 2 ^ usize_bits
      → has d (hup d p) i ≡ true
      → test_bit io.readiness i ≡ true
      → bit_and io.readiness (d.as_usize d.writable) ≡ 0
      → ((register_io d w write io).1 ≡ [])
        × (flags_of d (poll_io d p (quiet d) (quiet d) none write io).0 i ≡ true)
  unfolding register_io wake_flags
  register_misses_hup w io i h hup_flag on dry = (
    ground (arith, readiness-set_waker d p write (d.register_waker w (waker_of d write io)) io),
    ground (arith, poll_io-flags none write io i h, mask-hup write i hup_flag),
  )
