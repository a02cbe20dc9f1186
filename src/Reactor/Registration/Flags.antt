-- ===== src/Reactor/Registration/Flags.antt =====
-- src/reactor/mod.rs and src/reactor/registration.rs: which flags an event sets, a direction sees,
-- and a poll consumes.
use romio.Base.{
  ℕ, ◌<◌, ◌^◌, ◌≡◌, sym, ◌∙◌, ap, Bool, true, false, not, ◌&&◌, ◌||◌, Bool-cases, arith, inl, inr,
  ◌==◌, bit_and,
}
use romio.Base.Bits.{
  usize_bits, test_bit, test_bit-bit_and, test_bit-bit_or, test_bit-and_not, test_bit-zero,
}
use romio.Deps.{Deps}
use romio.Reactor.State.{Direction, read, write, ScheduledIo}
use romio.Reactor.Platform.{Platform, unix, windows, hup, is_hup, mask}
use romio.Reactor.Dispatch.{wakes_reader, wakes_writer, set_flags}
use romio.Reactor.Registration.Source.{mask_no_hup, take_flags}

-- `other read` is `write`, and the other way round.
abbrev pub other : Direction → Direction
other read = write
other write = read

module _ (d : Deps) where
  open d use {Ready, as_usize, ready_and, ready_or, ready_sub, ready_not, is_empty, from_usize}

  -- Flag `i` is in the set.
  abbrev pub has : Ready → ℕ → Bool
  has r i = test_bit (as_usize r) i

  pub has-or : (a b : Ready) (i : ℕ) → has (ready_or a b) i ≡ (has a i || has b i)
  has-or a b i = rw (d.as_usize-or a b) (test_bit-bit_or i (as_usize a) (as_usize b))

  pub has-and : (a b : Ready) (i : ℕ) → has (ready_and a b) i ≡ (has a i && has b i)
  has-and a b i = rw (d.as_usize-and a b) (test_bit-bit_and i (as_usize a) (as_usize b))

  pub has-sub : (a b : Ready) (i : ℕ) → has (ready_sub a b) i ≡ (has a i && not (has b i))
  has-sub a b i =
      rw (d.as_usize-sub a b)
        (test_bit-and_not usize_bits i _ _ (d.as_usize_lt a) (d.as_usize_lt b))

  pub has-and_not :
      (a b : Ready) (i : ℕ) → has (ready_and a (ready_not b)) i ≡ (has a i && not (has b i))
  has-and_not a b i =
      rw (d.as_usize-and a (ready_not b), d.as_usize-not b)
        (test_bit-and_not usize_bits i _ _ (d.as_usize_lt a) (d.as_usize_lt b))

  pub has-from_usize : (n i : ℕ) → n < 2 ^ usize_bits → has (from_usize n) i ≡ test_bit n i
  has-from_usize n i h = rw (d.as_usize-from_usize n h)

  -- A set with a flag is not empty.
  pub has-is_empty : (r : Ready) (i : ℕ) → has r i ≡ true → is_empty r ≡ false
  has-is_empty r i h = elim (Bool-cases (as_usize r == 0)) [
    | inl zero ↦
        let e : as_usize r ≡ 0 = ground arith in
        ground (arith, test_bit-zero i, ap (λ n. test_bit n i) e)
    | inr more ↦ d.is_empty_lem r ∙ more
  ]

  pub has-empty : (i : ℕ) → has d.empty i ≡ false
  has-empty i = rw d.as_usize-empty (test_bit-zero i)

  -- No flag is in two sets whose `&` is 0.
  pub disjoint : (a b i : ℕ) → bit_and a b ≡ 0 → (test_bit a i && test_bit b i) ≡ false
  disjoint a b i e = sym (test_bit-bit_and i a b) ∙ (ap (λ n. test_bit n i) e ∙ test_bit-zero i)

  pub writable-not_hup : (p : Platform) (i : ℕ) → (has d.writable i && has (hup d p) i) ≡ false
  unfolding hup
  writable-not_hup unix i = disjoint _ _ i d.writable-hup
  writable-not_hup windows i = ground (arith, has-empty i)

  -- A nonempty `&` from a flag in both.
  meets : (a b i : ℕ) → test_bit a i ≡ true → test_bit b i ≡ true → (bit_and a b == 0) ≡ false
  meets a b i ha hb = elim (Bool-cases (bit_and a b == 0)) [
    | inl zero ↦
        let e : bit_and a b ≡ 0 = ground arith in
        ground (arith, test_bit-zero i, ap (λ n. test_bit n i) e, test_bit-bit_and i a b)
    | inr more ↦ more
  ]

  pub is_hup-has :
      (p : Platform) (r : Ready) (i : ℕ)
      → has r i ≡ true
      → has (hup d p) i ≡ true
      → is_hup d p r ≡ true
  unfolding is_hup hup
  is_hup-has unix r i h k = rw (d.unix_is_hup_lem r, meets _ _ i h k)
  is_hup-has windows r i h k = ground (arith, has-empty i)

  pub is_writable-has :
      (r : Ready) (i : ℕ) → has r i ≡ true → has d.writable i ≡ true → d.is_writable r ≡ true
  is_writable-has r i h k = rw (d.is_writable_lem r, meets _ _ i h k)

module _ (d : Deps) (p : Platform) where
  open d use {Ready, as_usize}

  -- The tests by which `dispatch` takes the waker of a direction.
  abbrev pub wakes : Direction → Ready → Bool
  wakes read ready = wakes_reader d p ready
  wakes write ready = wakes_writer d p ready

  -- An event with a flag that a direction looks for takes the waker of that direction.
  pub wakes-mask :
      (dir : Direction) (ready : Ready) (i : ℕ)
      → has d ready i ≡ true
      → has d (mask d p dir) i ≡ true
      → wakes dir ready ≡ true
  unfolding wakes_reader wakes_writer mask
  wakes-mask read ready i h k = ground (
    arith,
    has-sub d d.all d.writable i,
    has-and_not d ready d.writable i,
    has-is_empty d (d.ready_and ready (d.ready_not d.writable)) i,
  )
  wakes-mask write ready i h k = ground (
    arith,
    has-or d d.writable (hup d p) i,
    is_writable-has d ready i h,
    is_hup-has d p ready i h,
  )

  -- A poll does not consume the flags that the other direction looks for.
  pub mask_no_hup-other :
      (dir : Direction) (i : ℕ)
      → has d (mask d p dir) i ≡ true
      → test_bit (mask_no_hup d p (other dir)) i ≡ false
  unfolding mask mask_no_hup
  mask_no_hup-other read i h = ground (
    arith,
    has-sub d d.all d.writable i,
    has-sub d (d.ready_or d.writable (hup d p)) (hup d p) i,
    has-or d d.writable (hup d p) i,
  )
  mask_no_hup-other write i h = ground (
    arith,
    has-or d d.writable (hup d p) i,
    has-sub d (d.ready_sub d.all d.writable) (hup d p) i,
    has-sub d d.all d.writable i,
  )

  mask_no_hup-lt : (dir : Direction) → mask_no_hup d p dir < 2 ^ usize_bits
  unfolding mask_no_hup
  mask_no_hup-lt dir = d.as_usize_lt _

  -- The flags of a source after `fetch_and`.
  pub test_bit-take_flags :
      (dir : Direction) (io : ScheduledIo d) (i : ℕ)
      → io.readiness < 2 ^ usize_bits
      → test_bit (take_flags d p dir io).1.readiness i
        ≡ (test_bit io.readiness i && not (test_bit (mask_no_hup d p dir) i))
  unfolding take_flags
  test_bit-take_flags dir io i h = test_bit-and_not usize_bits i _ _ h (mask_no_hup-lt dir)

  -- The flags that it returns.
  pub has-take_flags :
      (dir : Direction) (io : ScheduledIo d) (i : ℕ)
      → io.readiness < 2 ^ usize_bits
      → has d (take_flags d p dir io).0 i ≡ (has d (mask d p dir) i && test_bit io.readiness i)
  unfolding take_flags
  has-take_flags dir io i h = ground (
    arith,
    has-and d (mask d p dir) (d.from_usize io.readiness) i,
    has-from_usize d io.readiness i h,
  )

  pub test_bit-set_flags :
      (ready : Ready) (io : ScheduledIo d) (i : ℕ)
      → test_bit (set_flags d p ready io).readiness i ≡ (test_bit io.readiness i || has d ready i)
  unfolding set_flags
  test_bit-set_flags ready io i = test_bit-bit_or i io.readiness (as_usize ready)
