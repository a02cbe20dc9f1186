-- ===== src/Udp/Options.antt =====
-- src/udp.rs: the methods that only pass a call of the socket on.
use romio.Base.{ℕ, Bool, IoResult}
use romio.Deps.{Deps}
use romio.Deps.Options.{RawFd, UdpApi}
use romio.Reactor.World.{World}
use romio.PollEvented.State.{◌>>=◌, get_ref, returns, PollEvented, Run, evented_from}
use romio.PollEvented.Delegate.{delegate}

module _ (d : Deps) {Ipv4Addr Ipv6Addr : Type 0}
    (o : UdpApi d.Os d.Source d.Addr d.StdSocket Ipv4Addr Ipv6Addr) where
  unfoldable pub local_addr : Run (PollEvented d) (IoResult d.Addr)
  local_addr = delegate d o.local_addr

  unfoldable pub broadcast : Run (PollEvented d) (IoResult Bool)
  broadcast = delegate d o.broadcast

  unfoldable pub set_broadcast : Bool → Run (PollEvented d) (IoResult (Unit {0}))
  set_broadcast a = delegate d (λ io. o.set_broadcast io a)

  unfoldable pub multicast_loop_v4 : Run (PollEvented d) (IoResult Bool)
  multicast_loop_v4 = delegate d o.multicast_loop_v4

  unfoldable pub set_multicast_loop_v4 : Bool → Run (PollEvented d) (IoResult (Unit {0}))
  set_multicast_loop_v4 a = delegate d (λ io. o.set_multicast_loop_v4 io a)

  unfoldable pub multicast_ttl_v4 : Run (PollEvented d) (IoResult ℕ)
  multicast_ttl_v4 = delegate d o.multicast_ttl_v4

  unfoldable pub set_multicast_ttl_v4 : ℕ → Run (PollEvented d) (IoResult (Unit {0}))
  set_multicast_ttl_v4 a = delegate d (λ io. o.set_multicast_ttl_v4 io a)

  unfoldable pub multicast_loop_v6 : Run (PollEvented d) (IoResult Bool)
  multicast_loop_v6 = delegate d o.multicast_loop_v6

  unfoldable pub set_multicast_loop_v6 : Bool → Run (PollEvented d) (IoResult (Unit {0}))
  set_multicast_loop_v6 a = delegate d (λ io. o.set_multicast_loop_v6 io a)

  unfoldable pub ttl : Run (PollEvented d) (IoResult ℕ)
  ttl = delegate d o.ttl

  unfoldable pub set_ttl : ℕ → Run (PollEvented d) (IoResult (Unit {0}))
  set_ttl a = delegate d (λ io. o.set_ttl io a)

  unfoldable pub join_multicast_v4 : Ipv4Addr → Ipv4Addr → Run (PollEvented d) (IoResult (Unit {0}))
  join_multicast_v4 a b = delegate d (λ io. o.join_multicast_v4 io a b)

  unfoldable pub join_multicast_v6 : Ipv6Addr → ℕ → Run (PollEvented d) (IoResult (Unit {0}))
  join_multicast_v6 a b = delegate d (λ io. o.join_multicast_v6 io a b)

  unfoldable pub leave_multicast_v4 :
      Ipv4Addr → Ipv4Addr → Run (PollEvented d) (IoResult (Unit {0}))
  leave_multicast_v4 a b = delegate d (λ io. o.leave_multicast_v4 io a b)

  unfoldable pub leave_multicast_v6 : Ipv6Addr → ℕ → Run (PollEvented d) (IoResult (Unit {0}))
  leave_multicast_v6 a b = delegate d (λ io. o.leave_multicast_v6 io a b)

  -- `TryFrom` for a socket of the standard library
  unfoldable pub from_std : d.StdSocket → World d → IoResult (PollEvented d) × World d
  from_std socket w = evented_from d (o.from_socket socket) w

  -- `impl AsRawFd`
  unfoldable pub as_raw_fd : Run (PollEvented d) RawFd
  as_raw_fd = do io ← get_ref d; returns (o.as_raw_fd io)
