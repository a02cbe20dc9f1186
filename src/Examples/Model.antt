-- ===== src/Examples/Model.antt =====
-- A concrete instance of every interface: readiness as a bit mask, a waker cell as an option, the
-- slab of `Slots`, and an operating system that follows a script.
mod Flags
use romio.Base.{
  ℕ, suc, ◌+◌, ◌≡◌, refl, Bool, true, false, Option, none, some, List, [], ◌∷◌, ◌++◌, if◌then◌else◌,
  Waker, IoResult, ok, err, IoError, ErrorKind, other_error, not, ◌==◌,
}
use romio.Deps.{Deps}
use romio.Deps.Ready.{ReadyApi}
use romio.Deps.Wakers.{WakerApi}
use romio.Deps.Kernel.{KernelApi, Event, PollOpt}
use romio.Deps.Sockets.{SocketApi}
use romio.Examples.Slots.{slab_model}
use Flags.{flags_model}

abbrev pub take_option : Option Waker → Option Waker × Option Waker
take_option c = (c, none)

abbrev pub waker_model : WakerApi
waker_model = record {
  AtomicWaker = Option Waker;
  new_waker = none;
  register_waker = λ w c. some w;
  take_waker = take_option;
  take-new = refl;
  take-register = λ w c. refl;
  take-take = λ c. refl;
}

-- `refuses`: registrations and waits for events fail. `rung`: the wake-up is readable. `blocks`: reads and writes would block. `failure`: the error that
-- a socket holds. `tokens`: the tokens registered so far, the latest first.
pub record Script : Type 0 where
  pub refuses : Bool
  pub rung : Bool
  pub blocks : Bool
  pub failure : Option IoError
  pub events : List (Event ℕ)
  pub tokens : List ℕ

abbrev pub calm : Script
calm = record {
  refuses = false;
  rung = false;
  blocks = false;
  failure = none;
  events = [];
  tokens = [];
}

abbrev pub register_script : ℕ → ℕ → ℕ → ℕ → PollOpt → Script → IoResult (Unit {0}) × Script
register_script io source token ready opt os =
    if os.refuses
    then (err (other_error "refused"), os)
    else (ok tt, record os { tokens = token ∷ os.tokens })

abbrev pub wait_script : Script → IoResult (List (Event ℕ)) × Script
wait_script os =
    if os.refuses
    then (err (other_error "refused"), os)
    else (ok os.events, record os { events = [] })

abbrev pub kernel_model : KernelApi ℕ
kernel_model = record {
  Os = Script;
  Source = ℕ;
  poll_new = λ os. (ok 0, os);
  poll_register = register_script;
  poll_deregister = λ io source os. (ok tt, os);
  poll_wait = λ io max_wait. wait_script;
  registration_new2 = λ os. ((0, 0), os);
  set_readiness = λ n ready os. (ok tt, record os { rung = not (ready == 0) });
}

abbrev pub io_script : {A : Type 0} → A → Script → IoResult A × Script
io_script a os =
    if os.blocks
    then (err (record { kind = ErrorKind.would_block; message = "" }), os)
    else (ok a, os)

abbrev pub socket_model : SocketApi Script ℕ
socket_model = record {
  Addr = ℕ;
  UnixAddr = ℕ;
  FilePath = ℕ;
  StdSocket = ℕ;
  read = λ io n. io_script (7 ∷ []);
  write = λ io buf. io_script 1;
  flush = λ io. io_script tt;
  take_error = λ io os. (ok os.failure, record os { failure = none });
  tcp_connect = λ addr os. (ok 5, os);
  tcp_bind = λ addr os. (ok 6, os);
  tcp_accept_std = λ io. io_script (8, 9);
  tcp_from_stream = λ s os. (ok s, os);
  udp_bind = λ addr os. (ok 10, os);
  send_to = λ io buf addr. io_script 1;
  recv_from = λ io n. io_script (7 ∷ [], 9);
  unix_connect = λ path os. (ok 11, os);
  unix_bind = λ path os. (ok 12, os);
  unix_pair = λ os. (ok (13, 14), os);
  unix_accept_std = λ io. io_script (some (15, 9));
  unix_from_stream = λ s os. (ok s, os);
  datagram_bind = λ path os. (ok 16, os);
  datagram_pair = λ os. (ok (17, 18), os);
  datagram_unbound = λ os. (ok 19, os);
  datagram_send_to = λ io buf path. io_script 1;
  datagram_recv_from = λ io n. io_script (7 ∷ [], 9);
}

abbrev pub model : Deps
model = record {
  ready_api = flags_model;
  waker_api = waker_model;
  slab_api = slab_model;
  kernel_api = kernel_model;
  socket_api = socket_model;
}
