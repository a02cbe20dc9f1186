-- ===== src/PollEvented/Polls.antt =====
-- src/raw/poll_evented.rs: what a poll of a registered object returns, and that an event reaches it.
use romio.Base.{
  ℕ, ◌<◌, ◌^◌, ◌≡◌, refl, true, Bool-cases, Option-cases, arith, inl, inr, Option, none, some,
  Waker, ready, ok, done, bit_or, bit_and,
}
use romio.Base.Bits.{usize_bits, test_bit, test_bit-bit_or, bit_or-lt, test_bit-bit_and}
use romio.Deps.{Deps}
use romio.Reactor.State.{Direction, read, write, ScheduledIo, Inner}
use romio.Reactor.Platform.{Platform, hup, mask}
use romio.Reactor.World.{update}
use romio.Reactor.Tokens.{source_token}
use romio.Reactor.Dispatch.{dispatch, dispatch_io}
use romio.Reactor.Valid.{IsValid}
use romio.Reactor.Delivery.{dispatch-live}
use romio.Reactor.Registration.Source.{poll_io, some_flags, take_flags}
use romio.Reactor.Registration.Flags.{
  has-take_flags, has, disjoint, has-or, has-and, has-sub, has-is_empty, has-from_usize,
}
use romio.Reactor.Registration.Abstract.{dispatch_io-readiness}
use romio.Reactor.Registration.First.{register_again}
use romio.Reactor.Registration.Poll.{Others}
use romio.Reactor.Registration.Interference.{Calm}
use romio.PollEvented.State.{PollEvented, cached, store, on_cell, get_ref}
use romio.PollEvented.Ready.{flag, wanted, refresh, poll_registered, poll_evented_ready, register}
use romio.PollEvented.Attached.{Attached, answer, poll_ready-Attached}
use romio.PollEvented.Contract.{Settles, with_flags, wanted-flag}
use romio.PollEvented.Settling.{poll_registered-Settles, drain_loop-some}

module _ (d : Deps) (p : Platform) (others : Others d) where
  -- A registered object does not register again.
  pub poll_evented_ready-registered :
      (fuel : ℕ) (w : Waker) (dir : Direction) (source : d.Source) (s : PollEvented d)
      (io : ScheduledIo d)
      → s.io ≡ some source
      → Attached d s.cell io
      → poll_evented_ready d p fuel others w dir s ≡ poll_registered d p fuel others w dir s
  unfolding poll_evented_ready register get_ref on_cell
  poll_evented_ready-registered fuel w dir source s io held a =
      ground (arith, a.is_ready, register_again d others source s.cell (ground (arith, a.is_ready)))

  -- The contract of a poll: while other threads dispatch events to the object's source, on an object
  -- that is registered with a live reactor, `poll_read_ready` and `poll_write_ready` end within two
  -- rounds of their loop, and return flags, or `Pending` with the task woken or its waker registered for
  -- the direction. The object keeps its source and stays registered.
  pub poll-Settles :
      (calm : Calm d p others) (w : Waker) (dir : Direction) (source : d.Source) (s : PollEvented d)
      (io : ScheduledIo d)
      → s.io ≡ some source
      → Attached d s.cell io
      → Settles d p s.io w dir (poll_evented_ready d p 2 others w dir s)
  poll-Settles calm w dir source s io held a =
      rw (poll_evented_ready-registered 2 w dir source s io held a)
        (poll_registered-Settles d p others calm w dir s io a)

module _ (d : Deps) (p : Platform) where
  both : (a b i : ℕ) → bit_and a b ≡ a → test_bit a i ≡ true → test_bit b i ≡ true
  both a b i e h = ground (arith, test_bit-bit_and i a b, e)

  pub mask-flag :
      (dir : Direction) (i : ℕ) → has d (flag d p dir) i ≡ true → has d (mask d p dir) i ≡ true
  unfolding flag mask
  mask-flag read i h = ground (
    arith,
    has-sub d d.all d.writable i,
    both _ _ i d.all-readable h,
    disjoint d _ _ i d.readable-writable,
  )
  mask-flag write i h = ground (arith, has-or d d.writable (hup d p) i)

  -- What is there at the start of a poll is returned, whatever others do later.
  some-answer :
      (others : Others d) (cx : Option Waker) (dir : Direction) (i : ℕ) (io : ScheduledIo d)
      → io.readiness < 2 ^ usize_bits
      → has d (flag d p dir) i ≡ true
      → test_bit io.readiness i ≡ true
      → (r : d.Ready) × (answer d p others cx dir io ≡ some r) × (has d r i ≡ true)
  unfolding poll_io some_flags
  some-answer others cx dir i io fits here on =
      let r = (take_flags d p dir io).0 in
      let seen : has d r i ≡ true =
        ground (arith, has-take_flags d p dir io i fits, mask-flag dir i here) in
      let full = has-is_empty d r i seen in
      elim (Option-cases cx) [
        | inl nobody ↦ (r, rw nobody (ground (arith, full)), seen)
        | inr (w, task) ↦ (r, rw task (ground (arith, full)), seen)
      ]

  pub poll_registered-flag :
      (others : Others d) (calm : Calm d p others) (w : Waker) (dir : Direction) (i : ℕ)
      (s : PollEvented d) (io : ScheduledIo d)
      → Attached d s.cell io
      → cached d dir s < 2 ^ usize_bits
      → has d (flag d p dir) i ≡ true
      → test_bit io.readiness i ≡ true
      → (flags : d.Ready) × (s' : PollEvented d) × (poll_registered d p 2 others w dir s
          ≡ some (done (ready (ok flags), s')))
        × (has d flags i ≡ true)
  unfolding poll_registered refresh on_cell
  poll_registered-flag others calm w dir i s io a small here on =
      let seen = cached d dir s in
      let ret = d.ready_and (d.from_usize seen) (flag d p dir) in
      elim (Bool-cases (d.is_empty ret)) [
        | inl dry ↦
            let (r, some_r, has_r) = some-answer others (some w) dir i io a.fits here on in
            let (c, still, loop) =
              drain_loop-some d p others calm 1 w dir seen ret r s io a some_r in
            let full : has d (with_flags d p dir ret r) i ≡ true = ground (
              arith,
              has_r,
              has-or d ret (d.ready_and r (wanted d p dir)) i,
              has-and d r (wanted d p dir) i,
              wanted-flag d p dir i here,
            ) in
            (
              with_flags d p dir ret r,
              store d dir (bit_or seen (d.as_usize r)) (record s { cell = c }),
              ground (arith, dry, loop, has-is_empty d (with_flags d p dir ret r) i full),
              full,
            )
        | inr flags ↦
            let (r, some_r, has_r) = some-answer others none dir i io a.fits here on in
            let (c, asked, still, woken) =
              poll_ready-Attached d p others calm none dir s.cell io a in
            (
              d.from_usize (bit_or seen (d.as_usize r)),
              store d dir (bit_or seen (d.as_usize r)) (record s { cell = c }),
              ground (arith, flags, asked, some_r),
              ground (
                arith,
                has_r,
                has-from_usize d (bit_or seen (d.as_usize r)) i
                    (bit_or-lt usize_bits seen (d.as_usize r) small (d.as_usize_lt r)),
                test_bit-bit_or i seen (d.as_usize r),
              ),
            )
      ]

  -- The object after its reactor has dispatched an event with this token.
  abbrev pub after_event : ℕ → Inner d → ℕ → d.Ready → PollEvented d → PollEvented d
  after_event handle inner token event s = record s {
    cell = record (s.cell) {
      world = record (s.cell.world) {
        reactors = update s.cell.world.reactors handle (some (dispatch d p token event inner).0);
      };
    };
  }

  after_event-Attached :
      (s : PollEvented d) (io : ScheduledIo d) (a : Attached d s.cell io) (event : d.Ready)
      → IsValid d a.inner
      → Attached d
          (after_event a.tie.handle a.inner (source_token io.aba_guard a.tie.token) event s).cell
          (dispatch_io d p event io).0
  after_event-Attached s io a event valid = record {
    tie = a.tie;
    inner = (dispatch d p (source_token io.aba_guard a.tie.token) event a.inner).0;
    is_ready = a.is_ready;
    tied = a.tied;
    has_token = a.has_token;
    alive = ground arith;
    there = (dispatch-live d p a.tie.token event a.inner io valid a.there).0;
    fits =
        rw (dispatch_io-readiness d p event io)
          (bit_or-lt usize_bits io.readiness _ a.fits (d.as_usize_lt event));
  }

  cached-after_event :
      (dir : Direction) (handle token : ℕ) (inner : Inner d) (event : d.Ready) (s : PollEvented d)
      → cached d dir (after_event handle inner token event s) ≡ cached d dir s
  unfolding cached
  cached-after_event read handle token inner event s = refl
  cached-after_event write handle token inner event s = refl

  -- An event reaches the object's task: after the reactor has dispatched an event with the token of a
  -- registered object's source and with `readable`, or `writable` for a writer, the next poll of that
  -- direction returns this flag, while other threads do no more to the source than to add `readable`,
  -- `writable` and HUP and to take a waker whose task they wake. The reactor's table is well formed, and the
  -- object's cached readiness fits a word.
  pub event_is_polled :
      (others : Others d) (calm : Calm d p others) (w : Waker) (dir : Direction) (source : d.Source)
      (s : PollEvented d) (io : ScheduledIo d) (event : d.Ready) (i : ℕ) (a : Attached d s.cell io)
      → s.io ≡ some source
      → cached d dir s < 2 ^ usize_bits
      → IsValid d a.inner
      → has d (flag d p dir) i ≡ true
      → has d event i ≡ true
      → let s' = after_event a.tie.handle a.inner (source_token io.aba_guard a.tie.token) event s in
        (flags : d.Ready) × (s'' : PollEvented d) × (poll_evented_ready d p 2 others w dir s'
          ≡ some (done (ready (ok flags), s'')))
        × (has d flags i ≡ true)
  event_is_polled others calm w dir source s io event i a held small valid looks sends =
      let s' = after_event a.tie.handle a.inner (source_token io.aba_guard a.tie.token) event s in
      let a' = after_event-Attached s io a event valid in
      let on : test_bit (dispatch_io d p event io).0.readiness i ≡ true = ground (
        arith,
        dispatch_io-readiness d p event io,
        test_bit-bit_or i io.readiness (d.as_usize event),
      ) in
      rw
        (poll_evented_ready-registered d p others 2 w dir source s' (dispatch_io d p event io).0
          held a')
        (poll_registered-flag others calm w dir i s' (dispatch_io d p event io).0 a'
          (omega (
            arith,
            cached-after_event dir a.tie.handle (source_token io.aba_guard a.tie.token) a.inner
                event s,
          ))
          looks on)
