-- ===== src/Reactor/Registration/Wakeup/Invariant.antt =====
-- What holds between the accesses, in every order of them.
use romio.Base.{
  ℕ, ◌<◌, ◌^◌, ◌≡◌, refl, Bool, true, false, ◌⊎◌, inl, Option, none, some, List, ◌++◌, arith, Waker,
}
use romio.Base.Bits.{usize_bits, test_bit}
use romio.Deps.{Deps}
use romio.Reactor.State.{Direction, read, write, ScheduledIo}
use romio.Reactor.Platform.{Platform, mask}
use romio.Reactor.Dispatch.{take_writer, take_reader, wake_option}
use romio.Reactor.Woken.{Woken, Woken-append_right, Woken-append_left}
use romio.Reactor.Sources.{waker_of, set_waker}
use romio.Reactor.Registration.Source.{take_flags, some_flags}
use romio.Reactor.Registration.Flags.{
  other, has, wakes, wakes-mask, mask_no_hup-other, test_bit-take_flags, has-take_flags,
  test_bit-set_flags, has-is_empty,
}
use romio.Reactor.Registration.Wakeup.Machine.{
  Poller, starting, unready, registered, returned, Sender, sending, flagged, took_writer,
  took_reader, sent, Config, poller_at, sender_at, Step, poll_step, send_step, other_fetch,
  other_register, Reach, here, next, initial,
}
use romio.Reactor.Registration.Wakeup.Frame.{
  waker_of-set_waker, waker_of-set_other, readiness-set_waker, waker_of-take_flags, take_flags-fits,
  waker_of-set_flags, set_flags-fits,
}

-- The event's flags are set.
abbrev pub after_flags : Sender → Bool
after_flags sending = false
after_flags _ = true

-- The waker of the direction has been taken.
abbrev pub after_take : Direction → Sender → Bool
after_take write took_writer = true
after_take _ took_reader = true
after_take _ sent = true
after_take _ _ = false

pub sent_taken : (dir : Direction) → after_take dir sent ≡ true
sent_taken read = refl
sent_taken write = refl

module _ {R : Type 0} where
  abbrev pub saw : Poller R → Bool
  saw (returned (some _)) = true
  saw _ = false

  -- The waker is registered and nothing was returned.
  abbrev pub armed : Poller R → Bool
  armed registered = true
  armed (returned none) = true
  armed _ = false

  abbrev pub gave_up : Poller R → Bool
  gave_up (returned none) = true
  gave_up _ = false

-- The taken waker of the direction waits to be woken, or has been.
abbrev pub Caught : Direction → Waker → Sender → Option Waker → Option Waker → List Waker → Type 0
Caught dir waker sent rd wr woken = Woken waker woken
Caught read waker _ rd wr woken = rd ≡ some waker
Caught write waker _ rd wr woken = wr ≡ some waker

after_take→after_flags :
    (dir : Direction) (q : Sender) → after_take dir q ≡ true → after_flags q ≡ true
after_take→after_flags dir q h = ground arith

module _ (d : Deps) (p : Platform) (dir : Direction) (waker : Waker) (event : d.Ready) (i : ℕ) where
  pub record Inv (c : Config d) : Type 0 where
    pub fits : c.io.readiness < 2 ^ usize_bits
    pub flag :
        after_flags c.sender ≡ true → (test_bit c.io.readiness i ≡ true) ⊎ (saw c.poller ≡ true)
    pub cell :
        armed c.poller ≡ true
        → after_take dir c.sender ≡ false
        → (d.take_waker (waker_of d dir c.io)).0 ≡ some waker
    pub caught :
        gave_up c.poller ≡ true
        → after_take dir c.sender ≡ true
        → Caught dir waker c.sender c.rd c.wr c.woken

-- The steps in which the sender takes the wakers and wakes them.
module _ (d : Deps) (p : Platform) (waker : Waker) (event : d.Ready) (i : ℕ) where
  flagged-Inv :
      (dir : Direction)
      → wakes d p dir event ≡ true
      → (c : Config d) → c.sender ≡ flagged
      → Inv d p dir waker event i c
      → Inv d p dir waker event i (sender_at d p dir waker event flagged c)
  unfolding sender_at take_writer waker_of
  flagged-Inv read w c e v = record {
    fits = ground (arith, v.fits);
    flag = λ h. ground (arith, v.flag);
    cell = λ h k. ground (arith, v.cell);
    caught = λ h k. ground arith;
  }
  flagged-Inv write w c e v = record {
    fits = ground (arith, v.fits);
    flag = λ h. ground (arith, v.flag);
    cell = λ h k. ground arith;
    caught = λ h k. ground (arith, v.cell);
  }

  took_writer-Inv :
      (dir : Direction)
      → wakes d p dir event ≡ true
      → (c : Config d) → c.sender ≡ took_writer
      → Inv d p dir waker event i c
      → Inv d p dir waker event i (sender_at d p dir waker event took_writer c)
  unfolding sender_at take_reader waker_of
  took_writer-Inv read w c e v = record {
    fits = ground (arith, v.fits);
    flag = λ h. ground (arith, v.flag);
    cell = λ h k. ground arith;
    caught = λ h k. ground (arith, v.cell);
  }
  took_writer-Inv write w c e v = record {
    fits = ground (arith, v.fits);
    flag = λ h. ground (arith, v.flag);
    cell = λ h k. ground arith;
    caught = λ h k. ground (arith, v.caught);
  }

  took_reader-Inv :
      (dir : Direction) (c : Config d)
      → c.sender ≡ took_reader
      → Inv d p dir waker event i c
      → Inv d p dir waker event i (sender_at d p dir waker event took_reader c)
  unfolding sender_at
  took_reader-Inv dir c e v = record {
    fits = v.fits;
    flag = λ h. ground (arith, v.flag);
    cell = λ h k. ground arith;
    caught = λ h k. woken_at dir (ground (arith, v.caught h));
  }
    where
      woken_at :
          (dir : Direction)
          → Caught dir waker took_reader c.rd c.wr c.woken
          → Woken waker (c.woken ++ wake_option c.rd ++ wake_option c.wr)
      woken_at read q =
          Woken-append_left waker (c.woken ++ wake_option c.rd) (wake_option c.wr)
            (Woken-append_right waker c.woken (wake_option c.rd) (rw q (inl refl)))
      woken_at write q =
          Woken-append_right waker (c.woken ++ wake_option c.rd) (wake_option c.wr)
            (rw q (inl refl))

module _ (d : Deps) (p : Platform) (dir : Direction) (waker : Waker) (event : d.Ready) (i : ℕ)
    (sees : has d (mask d p dir) i ≡ true) (sends : has d event i ≡ true) where
  sees_flag :
      (io : ScheduledIo d)
      → io.readiness < 2 ^ usize_bits
      → test_bit io.readiness i ≡ true
      → d.is_empty (take_flags d p dir io).0 ≡ false
  sees_flag io fits on =
      has-is_empty d (take_flags d p dir io).0 i (ground (arith, has-take_flags d p dir io i fits))

  ran_at :
      (q : Poller d.Ready) (c : Config d)
      → c.poller ≡ q
      → Inv d p dir waker event i c
      → Inv d p dir waker event i (poller_at d p dir waker event q c)
  unfolding poller_at some_flags
  ran_at starting c e v = record {
    fits = take_flags-fits d p dir c.io v.fits;
    flag = λ h. ground (arith, v.flag h, sees_flag c.io v.fits);
    cell = λ h k. ground arith;
    caught = λ h k. ground arith;
  }
  ran_at unready c e v = record {
    fits = rw (readiness-set_waker d p dir _ c.io) v.fits;
    flag = λ h. rw (readiness-set_waker d p dir _ c.io) (ground (arith, v.flag h));
    cell = λ h k. rw (waker_of-set_waker d p dir _ c.io) (d.take-register waker _);
    caught = λ h k. ground arith;
  }
  ran_at registered c e v = record {
    fits = take_flags-fits d p dir c.io v.fits;
    flag = λ h. ground (arith, v.flag h, sees_flag c.io v.fits);
    cell = λ h k. rw (waker_of-take_flags d p dir dir c.io) (v.cell (ground arith) k);
    caught = λ h k.
        ground (arith, v.flag (after_take→after_flags dir c.sender k), sees_flag c.io v.fits);
  }
  ran_at (returned r) c e v = v

  sent_at :
      (q : Sender) (c : Config d)
      → c.sender ≡ q
      → Inv d p dir waker event i c
      → Inv d p dir waker event i (sender_at d p dir waker event q c)
  unfolding sender_at
  sent_at sending c e v = record {
    fits = set_flags-fits d p event c.io v.fits;
    flag = λ h. inl (ground (arith, test_bit-set_flags d p event c.io i));
    cell = λ h k. rw (waker_of-set_flags d p dir event c.io) (v.cell h (ground arith));
    caught = λ h k. ground arith;
  }
  sent_at flagged c e v =
      flagged-Inv d p waker event i dir (wakes-mask d p dir event i sends sees) c e v
  sent_at took_writer c e v =
      took_writer-Inv d p waker event i dir (wakes-mask d p dir event i sends sees) c e v
  sent_at took_reader c e v = took_reader-Inv d p waker event i dir c e v
  sent_at sent c e v = v

  fetched :
      (c : Config d)
      → Inv d p dir waker event i c
      → Inv d p dir waker event i (record c { io = (take_flags d p (other dir) c.io).1 })
  fetched c v = record {
    fits = take_flags-fits d p (other dir) c.io v.fits;
    flag = λ h. ground (
      arith,
      v.flag h,
      test_bit-take_flags d p (other dir) c.io i v.fits,
      mask_no_hup-other d p dir i sees,
    );
    cell = λ h k. rw (waker_of-take_flags d p dir (other dir) c.io) (v.cell h k);
    caught = v.caught;
  }

  rewoken :
      (c : Config d) (x : d.AtomicWaker)
      → Inv d p dir waker event i c
      → Inv d p dir waker event i (record c { io = set_waker d (other dir) x c.io })
  rewoken c x v = record {
    fits = rw (readiness-set_waker d p (other dir) x c.io) v.fits;
    flag = λ h. rw (readiness-set_waker d p (other dir) x c.io) (v.flag h);
    cell = λ h k. rw (waker_of-set_other d p dir x c.io) (v.cell h k);
    caught = v.caught;
  }

  Step-Inv :
      {c c' : Config d}
      → Step d p dir waker event c c'
      → Inv d p dir waker event i c
      → Inv d p dir waker event i c'
  Step-Inv {c} poll_step v = ran_at c.poller c refl v
  Step-Inv {c} send_step v = sent_at c.sender c refl v
  Step-Inv {c} other_fetch v = fetched c v
  Step-Inv {c} (other_register task) v = rewoken c _ v

  pub Reach-Inv :
      {c c' : Config d}
      → Inv d p dir waker event i c
      → Reach d p dir waker event c c'
      → Inv d p dir waker event i c'
  Reach-Inv v here = v
  Reach-Inv v (next r st) = Step-Inv st (Reach-Inv v r)

pub initial-Inv :
    (d : Deps) (p : Platform) (dir : Direction) (waker : Waker) (event : d.Ready) (i : ℕ)
    (io : ScheduledIo d)
    → io.readiness < 2 ^ usize_bits
    → Inv d p dir waker event i (initial d io)
unfolding initial
initial-Inv d p dir waker event i io fits = record {
  fits = fits;
  flag = λ h. cc;
  cell = λ h k. cc;
  caught = λ h k. cc;
}
