-- ===== src/Sockets.antt =====
-- src/tcp, src/udp.rs and src/uds: what the operations of a registered socket return, while
-- other threads dispatch events.
pub mod Accepting
pub mod Connecting
use romio.Base.{
  ℕ, ◌≡◌, refl, Bool-cases, arith, inl, inr, ◌⊎◌, Option, none, some, List, Waker, Poll, ready,
  pending, IoResult, ok, err, IoError, Outcome, done, ap,
}
use romio.Deps.{Deps}
use romio.Reactor.State.{Direction, read, write, ScheduledIo}
use romio.Reactor.Platform.{Platform}
use romio.Reactor.Registration.Poll.{Others}
use romio.Reactor.Registration.Interference.{Calm}
use romio.PollEvented.State.{PollEvented, Run, returns, ◌>>=◌, on_os}
use romio.PollEvented.Ready.{poll_read_ready}
use Accepting.{Streams, match_op-Answers, unix_accept-Answers, next_connection-Streams}
use Connecting.{Connects, tcp-Connects, unix-Connects}
use romio.PollEvented.Io as Evented
use romio.PollEvented.Io.{is_block, is_wouldblock}
use romio.PollEvented.Match.{block, match_op}
use romio.PollEvented.Blocking.{match_op-poll_op}
use romio.PollEvented.Attached.{Attached}
use romio.PollEvented.Contract.{Live}
use romio.PollEvented.Operations.{
  Answers, clear_ready-Hears, called, attempt-Answers, poll_op-Answers,
}
use romio.Tcp.Stream as TcpStream
use romio.Tcp.Listener as TcpListener
use romio.Udp
use romio.Uds.Stream as UnixStream
use romio.Uds.Listener as UnixListener
use romio.Uds.Datagram

module _ (d : Deps) (p : Platform) where
  open d use {Os, Source}

  -- The contract of the sockets, while other threads dispatch events to the socket's source, for a
  -- socket that is registered with a live reactor, and for any behaviour of the operating system: within two rounds of each loop, the
  -- reads, writes and flushes of both kinds of stream, the accepts of both kinds of listener and the
  -- futures that send and receive datagrams return a result that is not `WouldBlock`, or `Pending`
  -- with the task woken or its waker registered; and the streams of accepted connections yield a
  -- connection or an error, never their end, or `Pending` in the same way; and the futures of
  -- connections that wait return a stream that is registered, an error, or `Pending` in the same
  -- way, and do not panic. A socket whose operation returns, or that waits, is still registered. In each poll
  -- of the registration, before the waker is registered and before the flags are taken again, other
  -- threads may add `readable`, `writable` and HUP to the source, and take a waker whose task they wake.
  pub sockets-Answers :
      (others : Others d) (calm : Calm d p others) (w : Waker) (source : Source) (s : PollEvented d)
      (io : ScheduledIo d) (buf : List ℕ) (n : ℕ) (addr : d.Addr) (path : d.FilePath)
      → s.io ≡ some source
      → Attached d s.cell io
      → (Answers d p w read (TcpStream.poll_read d p 2 others w n s)
          × Answers d p w write (TcpStream.poll_write d p 2 others w buf s)
          × Answers d p w write (TcpStream.poll_flush d p 2 others w s)
          × Answers d p w read (TcpListener.poll_accept_std d p 2 others w s)
          × Streams d p w (TcpListener.poll_next d p 2 others w s)
          × Connects d p TcpStream.waiting w
              (TcpStream.poll_connect d p 2 others w (TcpStream.waiting s)))
        × (Answers d p w write (Udp.poll_sending d p 2 others w (Udp.send_to d buf addr) s)
            × Answers d p w read (Udp.poll_receiving d p 2 others w (Udp.recv_from d n) s))
        × (Answers d p w read (UnixStream.poll_read d p 2 others w n s)
            × Answers d p w write (UnixStream.poll_write d p 2 others w buf s)
            × Answers d p w write (UnixStream.poll_flush d p 2 others w s)
            × Answers d p w read (UnixListener.poll_accept_std d p 2 others w s)
            × Streams d p w (UnixListener.poll_next d p 2 others w s)
            × Connects d p UnixStream.waiting w
                (UnixStream.poll_connect d p 2 others w (UnixStream.waiting s)))
        × (Answers d p w write
              (Datagram.poll_sending d p 2 others w (Datagram.send_to d buf path) s)
            × Answers d p w read
                (Datagram.poll_receiving d p 2 others w (Datagram.recv_from d n) s))
  unfolding TcpStream.poll_read TcpStream.poll_write TcpStream.poll_flush
      TcpListener.poll_accept_std TcpListener.poll_ready TcpListener.poll_next Udp.poll_sending
      Udp.poll_send_to Udp.send_to Udp.poll_receiving Udp.poll_recv_from Udp.recv_from
      UnixStream.poll_read UnixStream.poll_write UnixStream.poll_flush UnixListener.poll_ready
      UnixListener.poll_next Datagram.poll_sending Datagram.poll_send_to Datagram.send_to
      Datagram.poll_receiving Datagram.poll_recv_from Datagram.recv_from Evented.poll_read
      Evented.poll_write Evented.poll_flush
  sockets-Answers others calm w source s io buf n addr path held a =
      let reads =
        λ (m : ℕ). poll_op-Answers d p others calm w read (λ o. d.read o m) source s io held a in
      let writes = λ (b : List ℕ).
        poll_op-Answers d p others calm w write (λ o. d.write o b) source s io held a in
      let flushes = poll_op-Answers d p others calm w write d.flush source s io held a in
      let tcp_accepts =
        match_op-Answers d p others calm w read d.tcp_accept_std source s io held a in
      let unix_accepts = unix_accept-Answers d p others calm w source s io held a in
      (
        (
          reads n,
          writes buf,
          flushes,
          tcp_accepts,
          next_connection-Streams d p w (TcpListener.poll_accept_std d p 2 others w)
              d.tcp_from_stream s tcp_accepts,
          tcp-Connects d p others calm w source s io held a,
        ),
        (
          match_op-Answers d p others calm w write (λ o. d.send_to o buf addr) source s io held a,
          match_op-Answers d p others calm w read (λ o. d.recv_from o n) source s io held a,
        ),
        (
          reads n,
          writes buf,
          flushes,
          unix_accepts,
          next_connection-Streams d p w (UnixListener.poll_accept_std d p 2 others w)
              d.unix_from_stream s unix_accepts,
          unix-Connects d p others calm w source s io held a,
        ),
        (
          match_op-Answers d p others calm w write (λ o. d.datagram_send_to o buf path) source s io
              held a,
          poll_op-Answers d p others calm w read (λ o. d.datagram_recv_from o n) source s io held a,
        ),
      )
