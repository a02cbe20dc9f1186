-- ===== src/Uds/Datagram.antt =====
-- src/uds/datagram.rs: `UnixDatagram`, which is its `PollEvented`.
use romio.Base.{ℕ, List, Waker, Poll, IoResult}
use romio.Deps.{Deps}
use romio.Reactor.Platform.{Platform}
use romio.Reactor.World.{World}
use romio.Reactor.Registration.Poll.{Others}
use romio.PollEvented.State.{PollEvented, Run, evented_from}
use romio.PollEvented.Match.{match_op}
use romio.PollEvented.Io.{poll_op}
use romio.PollEvented.Ready as Readiness
use romio.Reactor.State.{read, write}

-- `SendTo` and `RecvFrom`, without the socket that they borrow
pub record SendTo (Target : Type 0) : Type 0 where
  pub buf : List ℕ
  pub target : Target

pub record RecvFrom : Type 0 where
  pub buf : ℕ

module _ (d : Deps) where
  -- `UnixDatagram::bind`, `unbound`, and `pair` with the two mio sockets that `new` wraps
  unfoldable pub bind : d.FilePath → World d → IoResult (PollEvented d) × World d
  bind path w = evented_from d (d.datagram_bind path) w

  unfoldable pub unbound : World d → IoResult (PollEvented d) × World d
  unbound w = evented_from d d.datagram_unbound w

  unfoldable pub pair : World d → IoResult (d.Source × d.Source) × World d
  pair w = let (res, os') = d.datagram_pair w.os in (res, record w { os = os' })

  unfoldable pub send_to : List ℕ → d.FilePath → SendTo d.FilePath
  send_to buf target = record { buf = buf; target = target }

  unfoldable pub recv_from : ℕ → RecvFrom
  recv_from buf = record { buf = buf }

module _ (d : Deps) (p : Platform) where
  unfoldable pub poll_send_to :
      ℕ → Others d → Waker → List ℕ → d.FilePath → Run (PollEvented d) (Poll (IoResult ℕ))
  poll_send_to fuel others waker buf receiver =
      match_op d p fuel others waker write (λ io. d.datagram_send_to io buf receiver)

  unfoldable pub poll_recv_from :
      ℕ → Others d → Waker → ℕ → Run (PollEvented d) (Poll (IoResult (List ℕ × d.UnixAddr)))
  poll_recv_from fuel others waker buf =
      poll_op d p fuel others waker read (λ io. d.datagram_recv_from io buf)

  -- `impl Future for SendTo` and for `RecvFrom`
  unfoldable pub poll_sending :
      ℕ → Others d → Waker → SendTo d.FilePath → Run (PollEvented d) (Poll (IoResult ℕ))
  poll_sending fuel others waker f = poll_send_to fuel others waker f.buf f.target

  unfoldable pub poll_receiving :
      ℕ → Others d → Waker → RecvFrom → Run (PollEvented d) (Poll (IoResult (List ℕ × d.UnixAddr)))
  poll_receiving fuel others waker f = poll_recv_from fuel others waker f.buf

  -- `impl AsyncReadReady` and `AsyncWriteReady`
  unfoldable pub poll_read_ready :
      ℕ → Others d → Waker → Run (PollEvented d) (Poll (IoResult d.Ready))
  poll_read_ready fuel others waker = Readiness.poll_read_ready d p fuel others waker

  unfoldable pub poll_write_ready :
      ℕ → Others d → Waker → Run (PollEvented d) (Poll (IoResult d.Ready))
  poll_write_ready fuel others waker = Readiness.poll_write_ready d p fuel others waker
