-- ===== src/Reactor/Registration/Wakeup/Frame.antt =====
-- What each access of the machine leaves alone.
use romio.Base.{◌<◌, ◌^◌, ◌≡◌, refl}
use romio.Base.Bits.{usize_bits, bit_and-lt, bit_or-lt}
use romio.Deps.{Deps}
use romio.Reactor.State.{Direction, read, write, ScheduledIo}
use romio.Reactor.Platform.{Platform}
use romio.Reactor.Dispatch.{set_flags}
use romio.Reactor.Sources.{waker_of, set_waker}
use romio.Reactor.Registration.Source.{take_flags}
use romio.Reactor.Registration.Flags.{other}

-- What the accesses leave alone.
module _ (d : Deps) (p : Platform) where
  pub waker_of-set_waker :
      (dir : Direction) (x : d.AtomicWaker) (io : ScheduledIo d)
      → waker_of d dir (set_waker d dir x io) ≡ x
  unfolding waker_of set_waker
  waker_of-set_waker read x io = refl
  waker_of-set_waker write x io = refl

  pub waker_of-set_other :
      (dir : Direction) (x : d.AtomicWaker) (io : ScheduledIo d)
      → waker_of d dir (set_waker d (other dir) x io) ≡ waker_of d dir io
  unfolding waker_of set_waker
  waker_of-set_other read x io = refl
  waker_of-set_other write x io = refl

  pub readiness-set_waker :
      (dir : Direction) (x : d.AtomicWaker) (io : ScheduledIo d)
      → (set_waker d dir x io).readiness ≡ io.readiness
  unfolding set_waker
  readiness-set_waker read x io = refl
  readiness-set_waker write x io = refl

  pub waker_of-take_flags :
      (dir other_dir : Direction) (io : ScheduledIo d)
      → waker_of d dir (take_flags d p other_dir io).1 ≡ waker_of d dir io
  unfolding waker_of take_flags
  waker_of-take_flags read other_dir io = refl
  waker_of-take_flags write other_dir io = refl

  pub take_flags-fits :
      (dir : Direction) (io : ScheduledIo d)
      → io.readiness < 2 ^ usize_bits
      → (take_flags d p dir io).1.readiness < 2 ^ usize_bits
  unfolding take_flags
  take_flags-fits dir io h = bit_and-lt usize_bits io.readiness _ h

  pub waker_of-set_flags :
      (dir : Direction) (event : d.Ready) (io : ScheduledIo d)
      → waker_of d dir (set_flags d p event io) ≡ waker_of d dir io
  unfolding waker_of set_flags
  waker_of-set_flags read event io = refl
  waker_of-set_flags write event io = refl

  pub set_flags-fits :
      (event : d.Ready) (io : ScheduledIo d)
      → io.readiness < 2 ^ usize_bits
      → (set_flags d p event io).readiness < 2 ^ usize_bits
  unfolding set_flags
  set_flags-fits event io h = bit_or-lt usize_bits io.readiness _ h (d.as_usize_lt event)
