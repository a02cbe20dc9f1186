-- ===== src/PollEvented/Attached.antt =====
-- src/raw/poll_evented.rs: a registered object, one poll of its registration at a time, while other
-- threads dispatch events.
use romio.Base.{
  ℕ, ◌<◌, ◌^◌, ◌≡◌, ◌≢◌, refl, ◌∙◌, true, false, ◌++◌, Bool-cases, arith, inl, inr, Option, some,
  Waker, ok, done,
}
use romio.Base.Bits.{usize_bits, zero_of_bits}
use romio.Deps.{Deps}
use romio.Reactor.State.{Direction, read, write, ScheduledIo, Inner}
use romio.Reactor.Platform.{Platform, hup, mask}
use romio.Reactor.World.{upgrade, put_reactor, wake}
use romio.Reactor.Registration.State.{Tie, Cell, ready_state, error_token}
use romio.Reactor.Registration.Source.{poll_io, retry, some_flags, tie_poll_ready}
use romio.Reactor.Registration.Flags.{has, has-or, has-and, has-sub, has-is_empty}
use romio.Reactor.Registration.Streams.{flags_of, mask_no_hup-has}
use romio.Reactor.Registration.Poll.{Others, poll_loop, poll_ready}
use romio.Reactor.Registration.Interference.{plain, Calm}
use romio.Reactor.Registration.Disturbed.{disturbed, disturbed-leaves, disturbed-flags}
use romio.PollEvented.Ready.{flag, wanted}

module _ (d : Deps) where
  open d use {get}

  -- A registration that is ready, with a live reactor whose entry for it is `io`.
  pub record Attached (c : Cell d) (io : ScheduledIo d) : Type 0 where
    pub tie : Tie
    pub inner : Inner d
    pub is_ready : c.reg.state ≡ ready_state
    pub tied : c.reg.inner ≡ some tie
    pub has_token : tie.token ≢ error_token
    pub alive : c.world.reactors tie.handle ≡ some inner
    pub there : get tie.token inner.io_dispatch ≡ some io
    pub fits : io.readiness < 2 ^ usize_bits

  pub no_flags : (r : d.Ready) → ((i : ℕ) → has d r i ≡ false) → d.is_empty r ≡ true
  no_flags r off =
      let zero : d.as_usize r ≡ 0 = zero_of_bits (d.as_usize r) off in
      d.is_empty_lem r ∙ ground (arith, zero)

module _ (d : Deps) (p : Platform) (others : Others d) where
  open d use {get, modify}

  -- The entry and the result of a poll.
  abbrev pub polled : Option Waker → Direction → ScheduledIo d → ScheduledIo d
  polled cx dir io = (disturbed d p others cx dir io).1

  abbrev pub answer : Option Waker → Direction → ScheduledIo d → Option d.Ready
  answer cx dir io = (disturbed d p others cx dir io).0

  module _ (calm : Calm d p others) where
    pub poll_ready-Attached :
        (cx : Option Waker) (dir : Direction) (c : Cell d) (io : ScheduledIo d)
        → Attached d c io
        → (c' : Cell d) × (poll_ready d p others cx dir c ≡ some (done (ok (answer cx dir io), c')))
          × Attached d c' (polled cx dir io)
          × (c'.world.woken ≡ c.world.woken ++ (disturbed d p others cx dir io).2)
    unfolding poll_ready poll_loop tie_poll_ready upgrade put_reactor wake
    poll_ready-Attached cx dir c io a = (
      record c {
        world =
            wake d (disturbed d p others cx dir io).2 (put_reactor d a.tie.handle after c.world);
      },
      ground (arith, a.is_ready, a.tied, a.has_token, a.alive, a.there),
      record {
        tie = a.tie;
        inner = after;
        is_ready = a.is_ready;
        tied = a.tied;
        has_token = a.has_token;
        alive = ground arith;
        there = ground (
          arith,
          d.get-modify a.tie.token (polled cx dir) a.inner.io_dispatch a.tie.token,
          a.there,
        );
        fits = (disturbed-leaves d p others calm cx dir io a.fits).0;
      },
      refl,
    )
      where
        after : Inner d
        after = record (a.inner) {
          io_dispatch = modify a.tie.token (polled cx dir) a.inner.io_dispatch;
        }

    -- Flags that a poll returns are not empty.
    answer-ne :
        (w : Waker) (dir : Direction) (io : ScheduledIo d) (r : d.Ready)
        → answer (some w) dir io ≡ some r
        → d.is_empty r ≡ false
    unfolding poll_io retry some_flags
    answer-ne w dir io r e = ground arith

    -- Plain flags of a direction's mask are wanted.
    plain-wanted :
        (dir : Direction) (i : ℕ)
        → has d (mask d p dir) i ≡ true
        → plain d p i ≡ true
        → has d (wanted d p dir) i ≡ true
    unfolding mask wanted flag
    plain-wanted read i masked is_plain =
        ground (arith, has-sub d d.all d.writable i, has-or d d.readable (hup d p) i)
    plain-wanted write i masked is_plain = ground (arith, has-or d d.writable (hup d p) i)

    -- The second poll in a row returns flags that are wanted, if any.
    second-wanted :
        (w : Waker) (dir : Direction) (io : ScheduledIo d) (i : ℕ)
        → io.readiness < 2 ^ usize_bits
        → flags_of d (answer (some w) dir (polled (some w) dir io)) i ≡ true
        → has d (wanted d p dir) i ≡ true
    unfolding wanted
    second-wanted w dir io i fits on =
        let (fits', left) = disturbed-leaves d p others calm (some w) dir io fits in
        let (masked, from) =
          disturbed-flags d p others calm w dir (polled (some w) dir io) i fits' on in
        elim from [
          | inr is_plain ↦ plain-wanted dir i masked is_plain
          | inl stayed ↦ ground (
            arith,
            left i stayed,
            masked,
            mask_no_hup-has d p dir i,
            has-or d (flag d p dir) (hup d p) i,
          )
        ]

    -- So the second poll in a row returns nothing, or flags of which some are wanted.
    pub second-answer :
        (w : Waker) (dir : Direction) (io : ScheduledIo d) (r : d.Ready)
        → io.readiness < 2 ^ usize_bits
        → answer (some w) dir (polled (some w) dir io) ≡ some r
        → d.is_empty (d.ready_and r (wanted d p dir)) ≡ false
    second-answer w dir io r fits e =
        elim (Bool-cases (d.is_empty (d.ready_and r (wanted d p dir)))) [
          | inr flags ↦ flags
          | inl dry ↦
              let none_on : (i : ℕ) → has d r i ≡ false = λ i. ground (
                arith,
                dry,
                has-is_empty d (d.ready_and r (wanted d p dir)) i,
                has-and d r (wanted d p dir) i,
                e,
                second-wanted w dir io i fits,
              ) in
              absurd
                (ground (arith, no_flags d r none_on, answer-ne w dir (polled (some w) dir io) r e))
        ]
