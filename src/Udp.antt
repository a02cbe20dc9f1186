-- ===== src/Udp.antt =====
-- src/udp.rs: `UdpSocket`, which is its `PollEvented`.
pub mod Options
use romio.Base.{ℕ, List, Waker, Poll, IoResult}
use romio.Deps.{Deps}
use romio.Reactor.Platform.{Platform}
use romio.Reactor.World.{World}
use romio.Reactor.Registration.Poll.{Others}
use romio.PollEvented.State.{PollEvented, Run, evented_from}
use romio.PollEvented.Match.{match_op}
use romio.PollEvented.Ready as Readiness
use romio.Reactor.State.{read, write}

-- `SendTo` and `RecvFrom`, without the socket that they borrow
pub record SendTo (Target : Type 0) : Type 0 where
  pub buf : List ℕ
  pub target : Target

pub record RecvFrom : Type 0 where
  pub buf : ℕ

module _ (d : Deps) where
  -- `UdpSocket::bind`, `send_to` and `recv_from`
  unfoldable pub bind : d.Addr → World d → IoResult (PollEvented d) × World d
  bind addr w = evented_from d (d.udp_bind addr) w

  unfoldable pub send_to : List ℕ → d.Addr → SendTo d.Addr
  send_to buf target = record { buf = buf; target = target }

  unfoldable pub recv_from : ℕ → RecvFrom
  recv_from buf = record { buf = buf }

module _ (d : Deps) (p : Platform) where
  unfoldable pub poll_send_to :
      ℕ → Others d → Waker → List ℕ → d.Addr → Run (PollEvented d) (Poll (IoResult ℕ))
  poll_send_to fuel others waker buf receiver =
      match_op d p fuel others waker write (λ io. d.send_to io buf receiver)

  unfoldable pub poll_recv_from :
      ℕ → Others d → Waker → ℕ → Run (PollEvented d) (Poll (IoResult (List ℕ × d.Addr)))
  poll_recv_from fuel others waker buf =
      match_op d p fuel others waker read (λ io. d.recv_from io buf)

  -- `impl Future for SendTo` and for `RecvFrom`
  unfoldable pub poll_sending :
      ℕ → Others d → Waker → SendTo d.Addr → Run (PollEvented d) (Poll (IoResult ℕ))
  poll_sending fuel others waker f = poll_send_to fuel others waker f.buf f.target

  unfoldable pub poll_receiving :
      ℕ → Others d → Waker → RecvFrom → Run (PollEvented d) (Poll (IoResult (List ℕ × d.Addr)))
  poll_receiving fuel others waker f = poll_recv_from fuel others waker f.buf

  -- `impl AsyncReadReady` and `AsyncWriteReady`
  unfoldable pub poll_read_ready :
      ℕ → Others d → Waker → Run (PollEvented d) (Poll (IoResult d.Ready))
  poll_read_ready fuel others waker = Readiness.poll_read_ready d p fuel others waker

  unfoldable pub poll_write_ready :
      ℕ → Others d → Waker → Run (PollEvented d) (Poll (IoResult d.Ready))
  poll_write_ready fuel others waker = Readiness.poll_write_ready d p fuel others waker
