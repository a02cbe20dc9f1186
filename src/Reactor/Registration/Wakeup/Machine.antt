-- ===== src/Reactor/Registration/Wakeup/Machine.antt =====
-- The machine: the poller and the sender with their program counters, and the steps.
use romio.Base.{Option, none, some, List, [], ◌++◌, if◌then◌else◌, Waker}
use romio.Deps.{Deps}
use romio.Reactor.State.{Direction, ScheduledIo}
use romio.Reactor.Platform.{Platform}
use romio.Reactor.Dispatch.{set_flags, take_writer, take_reader, wake_option}
use romio.Reactor.Sources.{waker_of, set_waker}
use romio.Reactor.Registration.Source.{take_flags, some_flags}
use romio.Reactor.Registration.Flags.{other}

-- Where `poll_ready` stands: before the first `fetch_and`, before the registration of the waker,
-- before the second `fetch_and`, or returned.
pub data Poller (R : Type 0) : Type 0 where
  starting : Poller R
  unready : Poller R
  registered : Poller R
  returned : Option R → Poller R

-- Where `dispatch` stands: before `fetch_or`, before it takes the writer, before it takes the
-- reader, before it wakes what it took, or done.
pub data Sender : Type 0 where
  sending flagged took_writer took_reader sent : Sender

pub record Config (d : Deps) : Type 0 where
  pub io : ScheduledIo d
  pub poller : Poller d.Ready
  pub sender : Sender
  pub rd : Option Waker
  pub wr : Option Waker
  pub woken : List Waker

module _ (d : Deps) (p : Platform) (dir : Direction) (waker : Waker) (event : d.Ready) where
  open d use {Ready, is_empty, register_waker}

  -- One access of the task that polls.
  unfoldable pub poller_at : Poller Ready → Config d → Config d
  poller_at starting c =
      let (flags, io) = take_flags d p dir c.io in
      record c { io = io; poller = if is_empty flags then unready else returned (some flags) }
  poller_at unready c = record c {
    io = set_waker d dir (register_waker waker (waker_of d dir c.io)) c.io;
    poller = registered;
  }
  poller_at registered c =
      let (flags, io) = take_flags d p dir c.io in
      record c { io = io; poller = returned (some_flags d p flags) }
  poller_at (returned r) c = c

  -- One access of the reactor.
  unfoldable pub sender_at : Sender → Config d → Config d
  sender_at sending c = record c { io = set_flags d p event c.io; sender = flagged }
  sender_at flagged c =
      let (wr, io) = take_writer d p event c.io in
      record c { io = io; wr = wr; sender = took_writer }
  sender_at took_writer c =
      let (rd, io) = take_reader d p event c.io in
      record c { io = io; rd = rd; sender = took_reader }
  sender_at took_reader c = record c {
    woken = c.woken ++ wake_option c.rd ++ wake_option c.wr;
    sender = sent;
  }
  sender_at sent c = c

  -- Any thread may be next. The other direction's task fetches its flags or registers a waker.
  pub data Step (c : Config d) : Config d → Type 0 where
    poll_step : Step c (poller_at c.poller c)
    send_step : Step c (sender_at c.sender c)
    other_fetch : Step c (record c { io = (take_flags d p (other dir) c.io).1 })
    other_register :
        (task : Waker)
        → Step c (record c {
          io = set_waker d (other dir) (register_waker task (waker_of d (other dir) c.io)) c.io;
        })

  pub data Reach (s : Config d) : Config d → Type 0 where
    here : Reach s s
    next : {t u : Config d} → Reach s t → Step t u → Reach s u

-- Both about to begin.
unfoldable pub initial : (d : Deps) → ScheduledIo d → Config d
initial d io = record {
  io = io;
  poller = starting;
  sender = sending;
  rd = none;
  wr = none;
  woken = [];
}
