-- ===== src/Examples/Sockets.antt =====
-- The laws of the connection futures at concrete inputs.
use romio.Base.{ℕ, ◌≡◌, refl, none, some, ready, ok, err, other_error, done, panics}
use romio.Base.Bits.{complement}
use romio.Examples.Model.{model, calm, Script}
use romio.Examples.Registrations.{world_with, refusing}
use romio.Reactor.Platform.{unix, mask, hup}
use romio.Reactor.World.{upgrade, put_reactor, wake}
use romio.Reactor.Handle.{try_current, fallback, reify}
use romio.Reactor.Tokens.{source_token, next_guard}
use romio.Reactor.Sources.{add_source}
use romio.Reactor.Registration.State.{node_pointer}
use romio.Reactor.Registration.Source.{
  tie_new, tie_poll_ready, tie_deregister, tie_drop, poll_io, take_flags, some_flags, mask_no_hup,
}
use romio.Reactor.Registration.Poll.{
  alone, register, register_loop, lock, associate, unlock, drain, poll_ready, poll_loop, deregister,
}
use romio.PollEvented.State.{PollEvented, get_ref, on_cell, on_os, cached, store}
use romio.PollEvented.Ready.{poll_write_ready, poll_evented_ready, poll_registered, refresh, flag}
use romio.PollEvented.Ready as Readiness
use romio.PollEvented.Io.{drop_evented, drop_registration}
use romio.Tcp.Stream as Tcp
use romio.Tcp.Connect.{tcp_connects_once}
use romio.Uds.Stream as Unix
use romio.Uds.Connect.{unix_error_keeps_waiting, unix_connects_once}

-- A socket whose registration is refused, and one whose cache has the writable flag.
abbrev socket : Script → ℕ → PollEvented model
socket os flags = record {
  io = some 5;
  cell = record { reg = record { inner = none; state = 0 }; world = world_with os };
  read_readiness = 0;
  write_readiness = flags;
}

abbrev tcp_refused :
    (f : Tcp.ConnectFuture model) × (Tcp.poll_connect model unix 2
        (alone model)
        3
        (Tcp.waiting (socket refusing 0))
      ≡ some (done (ready (err (other_error "refused")), f)))
unfolding Tcp.poll_connect Tcp.fail poll_write_ready poll_evented_ready Readiness.register get_ref
    on_cell register register_loop try_current fallback reify lock associate tie_new upgrade
    put_reactor add_source source_token next_guard unlock drain node_pointer complement drop_evented
    drop_registration deregister tie_deregister tie_drop
tcp_refused = (_, refl)

tcp_connects_once_example :
    Tcp.poll_connect model unix 2 (alone model) 4 tcp_refused.0 ≡ some panics
tcp_connects_once_example =
    tcp_connects_once model unix 2 2 (alone model) (alone model) 3 4
      (Tcp.waiting (socket refusing 0)) tcp_refused.0 (err (other_error "refused")) tcp_refused.1

abbrev unix_refused :
    (f : Unix.ConnectFuture model) × (Unix.poll_connect model unix 2
        (alone model)
        3
        (Unix.waiting (socket refusing 0))
      ≡ some (done (ready (err (other_error "refused")), f)))
unfolding Unix.poll_connect poll_write_ready poll_evented_ready Readiness.register get_ref on_cell
    register register_loop try_current fallback reify lock associate tie_new upgrade put_reactor
    add_source source_token next_guard unlock drain node_pointer complement
unix_refused = (_, refl)

unix_error_keeps_waiting_example :
    (stream : PollEvented model) × (unix_refused.0 ≡ Unix.waiting stream)
unix_error_keeps_waiting_example =
    unix_error_keeps_waiting model unix 2 (alone model) 3 (socket refusing 0) unix_refused.0
      (other_error "refused") unix_refused.1

abbrev unix_made :
    (stream : PollEvented model) × (f : Unix.ConnectFuture model) × (Unix.poll_connect model unix 2
        (alone model)
        3
        (Unix.waiting (socket calm 2))
      ≡ some (done (ready (ok stream), f)))
unfolding Unix.poll_connect Unix.connected Unix.take_error on_os poll_write_ready poll_evented_ready
    Readiness.register get_ref on_cell register register_loop try_current fallback reify lock
    associate tie_new upgrade put_reactor add_source source_token next_guard unlock drain
    node_pointer complement poll_registered refresh flag cached store poll_ready poll_loop
    tie_poll_ready poll_io take_flags some_flags mask mask_no_hup hup wake
unix_made = (_, _, refl)

unix_connects_once_example :
    Unix.poll_connect model unix 2 (alone model) 4 unix_made.1 ≡ some panics
unix_connects_once_example =
    unix_connects_once model unix 2 2 (alone model) (alone model) 3 4 (socket calm 2) unix_made.0
      unix_made.1 unix_made.2
