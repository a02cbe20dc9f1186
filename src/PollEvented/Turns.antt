-- ===== src/PollEvented/Turns.antt =====
-- src/raw/poll_evented.rs with src/reactor/mod.rs: a task that a poll left waiting, and a turn of the
-- event loop of the object's reactor.
use romio.Base.{
  ℕ, ◌<◌, ◌^◌, ◌≡◌, refl, true, arith, inl, inr, ◌⊎◌, Option, some, List, Waker, ready, ok, done,
  panics,
}
use romio.Base.Bits.{usize_bits, test_bit}
use romio.Deps.{Deps}
use romio.Deps.Kernel.{Event}
use romio.Reactor.State.{Direction, read, write, ScheduledIo}
use romio.Reactor.Platform.{Platform}
use romio.Reactor.World.{update}
use romio.Reactor.Tokens.{source_token}
use romio.Reactor.Turn.{Loop, turn}
use romio.Reactor.Valid.{IsValid}
use romio.Reactor.Woken.{Woken}
use romio.Reactor.Events.{AreWords, CannotReset, sent, turn-Gains}
use romio.Reactor.Waits.{Waits}
use romio.Reactor.Wakings.{turn_serves}
use romio.Reactor.Registration.Flags.{has}
use romio.Reactor.Registration.Poll.{Others}
use romio.Reactor.Registration.Interference.{Calm}
use romio.PollEvented.State.{PollEvented, cached}
use romio.PollEvented.Ready.{flag, poll_evented_ready}
use romio.PollEvented.Attached.{Attached}
use romio.PollEvented.Polls.{mask-flag, poll_evented_ready-registered, poll_registered-flag}

module _ (d : Deps) (p : Platform) where
  open d use {Ready, get}

  -- The reactor of a registered object, and the object after a turn of it.
  abbrev pub reactor_of : (s : PollEvented d) (io : ScheduledIo d) → Attached d s.cell io → Loop d
  reactor_of s io a = record { inner = a.inner; os = s.cell.world.os; woken = s.cell.world.woken }

  abbrev pub after_turn : ℕ → Loop d → PollEvented d → PollEvented d
  after_turn handle l s = record s {
    cell = record (s.cell) {
      world = record (s.cell.world) {
        reactors = update s.cell.world.reactors handle (some l.inner);
        os = l.os;
        woken = l.woken;
      };
    };
  }

  after_turn-Attached :
      (s : PollEvented d) (io io' : ScheduledIo d) (a : Attached d s.cell io) (l : Loop d)
      → get a.tie.token l.inner.io_dispatch ≡ some io'
      → io'.readiness < 2 ^ usize_bits
      → Attached d (after_turn a.tie.handle l s).cell io'
  after_turn-Attached s io io' a l there fits = record {
    tie = a.tie;
    inner = l.inner;
    is_ready = a.is_ready;
    tied = a.tied;
    has_token = a.has_token;
    alive = ground arith;
    there = there;
    fits = fits;
  }

  cached-after_turn :
      (dir : Direction) (handle : ℕ) (l : Loop d) (s : PollEvented d)
      → cached d dir (after_turn handle l s) ≡ cached d dir s
  unfolding cached
  cached-after_turn read handle l s = refl
  cached-after_turn write handle l s = refl

  -- A task that a poll left waiting is served. Let the entry of a registered object hold the waker of
  -- the task that waits for a direction, as it does after a poll that returned `Pending`. Then a
  -- turn of the object's reactor, in which mio returns among other events one with the source's token
  -- and with `readable`, or `writable` for a writer, returns `Ok` and wakes the task, and the poll that
  -- the task does next returns this flag, while other threads do no more to the source than to add
  -- `readable`, `writable` and HUP and to take a waker whose task they wake. The turn may panic instead,
  -- but only if the operating system can refuse to reset the readiness of the reactor's own wake-up. The
  -- reactor's table is well formed, tokens of events are words, and the object's cached readiness fits
  -- a word.
  pub pending_is_served :
      (others : Others d) (calm : Calm d p others) (w : Waker) (dir : Direction) (source : d.Source)
      (s : PollEvented d) (io : ScheduledIo d) (max_wait : Option ℕ) (events : List (Event Ready))
      (os : d.Os) (i : ℕ) (a : Attached d s.cell io)
      → s.io ≡ some source
      → Waits d p w dir io
      → cached d dir s < 2 ^ usize_bits
      → IsValid d a.inner
      → d.poll_wait a.inner.io max_wait s.cell.world.os ≡ (ok events, os)
      → AreWords d p events
      → has d (flag d p dir) i ≡ true
      → sent d p (source_token io.aba_guard a.tie.token) events i ≡ true
      → (CannotReset d p a.inner.wakeup × (turn d p max_wait (reactor_of s io a) ≡ panics))
        ⊎ ((l : Loop d) × (turn d p max_wait (reactor_of s io a) ≡ done (ok tt, l))
            × Woken w l.woken
            × ((flags : Ready) × (s' : PollEvented d) × (poll_evented_ready d p 2 others w dir
                    (after_turn a.tie.handle l s)
                  ≡ some (done (ready (ok flags), s')))
                × (has d flags i ≡ true)))
  pending_is_served others calm w dir source s io max_wait events os i a held waits small valid
        waited words looks sends =
      elim (turn-Gains d p max_wait events os a.tie.token (reactor_of s io a) io waited words valid
        a.there) [
          | inl fails ↦ inl fails
          | inr (l, turned, (valid', wakeup', (io', there', guard', flags'))) ↦
              let woken =
                turn_serves d p w dir max_wait events os a.tie.token i (reactor_of s io a) l io
                  waited words valid a.there waits turned (mask-flag d p dir i looks) sends in
              let a' =
                after_turn-Attached s io io' a l there'
                  (valid'.entries a.tie.token io' there').1.fits in
              let on : test_bit io'.readiness i ≡ true = ground (arith, flags' i, sends) in
              inr (
                l,
                turned,
                woken,
                rw
                    (poll_evented_ready-registered d p others 2 w dir source
                      (after_turn a.tie.handle l s) io' held a')
                    (poll_registered-flag d p others calm w dir i (after_turn a.tie.handle l s) io'
                      a' (omega (arith, cached-after_turn dir a.tie.handle l s)) looks on),
              )
        ]
