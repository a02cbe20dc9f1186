-- ===== src/Examples/Polls.antt =====
-- The contract of a poll, and the refinements, at concrete inputs.
use romio.Base.{
  ◌≡◌, refl, arith, inr, panics, true, none, some, List, [], ◌∷◌, ◌==◌, if◌then◌else◌, ok, done,
}
use romio.Base.Bits.{test_bit}
use romio.Examples.Model.{model, calm}
use romio.Examples.Tables.{start, start-IsValid, added, one_source}
use romio.Examples.Registrations.{world_with}
use romio.Reactor.State.{read, write}
use romio.Reactor.Platform.{unix}
use romio.Reactor.Sources.{new_io}
use romio.Reactor.World.{address}
use romio.Reactor.Registration.State.{Cell}
use romio.Reactor.Registration.Abstract.{
  Op, Agree, results, flag_results, results-refines, event, polls, registers,
}
use romio.Reactor.Registration.Interference.{Calm, dispatches, dispatches-Polite}
use romio.Reactor.Registration.Poll.{Others, alone, poll_ready, unlock}
use romio.Reactor.Registration.Waiters.{Served, with_contexts, waiter-Served}
use romio.Reactor.Registration.Dangling.{dangling_waiter}
use romio.PollEvented.State.{PollEvented}
use romio.PollEvented.Io.{poll_op}
use romio.PollEvented.Match.{match_op}
use romio.PollEvented.Blocking.{match_op-poll_op}
use romio.PollEvented.Attached.{Attached}
use romio.Reactor.Handle.{try_current, fallback, reify}
use romio.PollEvented.Operations.{Answers, poll_op-Answers}
use romio.PollEvented.FirstUse.{registering_alone, first_op-Answers}
use romio.Tcp.Stream as TcpStream
use romio.Tcp.Listener as TcpListener
use romio.Udp
use romio.Uds.Stream as UnixStream
use romio.Uds.Listener as UnixListener
use romio.Uds.Datagram
use romio.Sockets.Accepting.{Streams}
use romio.Sockets.Connecting.{Connects}
use romio.Sockets.{sockets-Answers}

-- Two tasks that read and write one source.
abbrev shared : List (Op model)
shared = event 9 ∷ polls none read ∷ registers 4 write ∷ event 2 ∷ polls (some 4) write ∷ []

results-refines_example :
    Agree model unix
      (results model unix shared (new_io model 0))
      (flag_results model unix shared (λ i. test_bit 0 i))
results-refines_example =
    results-refines model unix shared (new_io model 0) (λ i. test_bit 0 i) (omega arith) (λ i. refl)

-- A registration with the reactor at 8, whose source has the key 0.
abbrev pub tied : Cell model
tied = record {
  reg = record { inner = some (record { handle = 8; token = 0 }); state = 2 };
  world = record (world_with calm) { reactors = λ a. if a == 8 then some one_source else none };
}

abbrev pub socket : PollEvented model
socket = record { io = some 5; cell = tied; read_readiness = 0; write_readiness = 0 }

abbrev attached : Attached model tied (new_io model 0)
attached = record {
  tie = record { handle = 8; token = 0 };
  inner = one_source;
  is_ready = refl;
  tied = refl;
  has_token = omega arith;
  alive = refl;
  there = refl;
  fits = omega arith;
}

-- The same registration while its thread still has it locked.
abbrev registering : Cell model
registering = record tied {
  reg = record { inner = some (record { handle = 8; token = 0 }); state = 1 };
}

waiter-Served_example :
    (c' : Cell model) × (c'' : Cell model) × (poll_ready model unix
        (alone model)
        (some 3)
        read
        registering
      ≡ some (done (ok none, c')))
    × (unlock model (ok tt) (with_contexts model unix (λ a. some a) c')
        ≡ some (done (ok true, c'')))
    × (c''.reg.state ≡ 2)
    × (c''.world.boxes (address 1) ≡ none)
    × Served model unix 3 read (record { handle = 8; token = 0 }) c''.world
waiter-Served_example =
    waiter-Served model unix 3 read (record { handle = 8; token = 0 }) (ok tt) (λ a. some a)
      registering refl refl (omega arith) (inr (inr (one_source, new_io model 0, refl, refl))) refl

dangling_waiter_example :
    (c' : Cell model) × (poll_ready model unix (alone model) (some 3) read registering
      ≡ some (done (ok none, c')))
    × (unlock model (ok tt) (with_contexts model unix (λ a. none) c') ≡ some panics)
dangling_waiter_example =
    dangling_waiter model unix 3 read (record { handle = 8; token = 0 }) (ok tt) (λ a. none)
      registering refl refl (omega arith) refl

match_op-poll_op_example :
    match_op model unix 2 (alone model) 3 read (λ io. model.recv_from io 4)
    ≡ poll_op model unix 2 (alone model) 3 read (λ io. model.recv_from io 4)
match_op-poll_op_example =
    match_op-poll_op model unix 2 (alone model) 3 read (λ io. model.recv_from io 4)

-- A socket of the script in which calls would block.
abbrev blocked : PollEvented model
blocked = record socket {
  cell = record tied { world = record (tied.world) { os = record calm { blocks = true } } };
}

blocked_attached : Attached model blocked.cell (new_io model 0)
blocked_attached = record {
  tie = record { handle = 8; token = 0 };
  inner = one_source;
  is_ready = refl;
  tied = refl;
  has_token = omega arith;
  alive = refl;
  there = refl;
  fits = omega arith;
}

-- Meanwhile another thread dispatches an event that is readable, and then one that is writable.
abbrev pub meanwhile : Others model
meanwhile = record (alone model) {
  before_waker = dispatches model unix (1 ∷ []);
  before_retry = dispatches model unix (2 ∷ []);
}

pub meanwhile-Calm : Calm model unix meanwhile
meanwhile-Calm = record {
  first = dispatches-Polite model unix (1 ∷ []) (λ i on. ground (arith, on), tt);
  second = dispatches-Polite model unix (2 ∷ []) (λ i on. ground (arith, on), tt);
}

poll_op-Answers_example :
    Answers model unix 3 read
      (poll_op model unix 2 meanwhile 3 read (λ io. model.read io 4) blocked)
poll_op-Answers_example =
    poll_op-Answers model unix meanwhile meanwhile-Calm 3 read (λ io. model.read io 4) 5 blocked
      (new_io model 0) refl blocked_attached

-- A new socket, and the fallback reactor with no source yet.
abbrev fresh : PollEvented model
fresh = record socket {
  cell = record { reg = record { inner = none; state = 0 }; world = world_with calm };
}

first_op-Answers_example : Answers model unix 3 write (
    poll_op model unix 2
      (registering_alone model unix
        (dispatches model unix (1 ∷ []))
        (dispatches model unix (2 ∷ [])))
      3
      write
      (λ io. model.write io (7 ∷ []))
      fresh)
unfolding try_current fallback reify
first_op-Answers_example =
    first_op-Answers model unix (dispatches model unix (1 ∷ [])) (dispatches model unix (2 ∷ [])) 3
      write (λ io. model.write io (7 ∷ [])) 5 8 0 start one_source (record calm { tokens = 0 ∷ [] })
      (world_with calm) fresh meanwhile-Calm.first meanwhile-Calm.second refl refl refl refl
      start-IsValid added

sockets-Answers_example :
    (Answers model unix 3 read (TcpStream.poll_read model unix 2 meanwhile 3 4 blocked)
      × Answers model unix 3 write (TcpStream.poll_write model unix 2 meanwhile 3 (7 ∷ []) blocked)
      × Answers model unix 3 write (TcpStream.poll_flush model unix 2 meanwhile 3 blocked)
      × Answers model unix 3 read (TcpListener.poll_accept_std model unix 2 meanwhile 3 blocked)
      × Streams model unix 3 (TcpListener.poll_next model unix 2 meanwhile 3 blocked)
      × Connects model unix TcpStream.waiting 3
          (TcpStream.poll_connect model unix 2 meanwhile 3 (TcpStream.waiting blocked)))
    × (Answers model unix 3 write
          (Udp.poll_sending model unix 2 meanwhile 3 (Udp.send_to model (7 ∷ []) 9) blocked)
        × Answers model unix 3 read
            (Udp.poll_receiving model unix 2 meanwhile 3 (Udp.recv_from model 4) blocked))
    × (Answers model unix 3 read (UnixStream.poll_read model unix 2 meanwhile 3 4 blocked)
        × Answers model unix 3 write
            (UnixStream.poll_write model unix 2 meanwhile 3 (7 ∷ []) blocked)
        × Answers model unix 3 write (UnixStream.poll_flush model unix 2 meanwhile 3 blocked)
        × Answers model unix 3 read (UnixListener.poll_accept_std model unix 2 meanwhile 3 blocked)
        × Streams model unix 3 (UnixListener.poll_next model unix 2 meanwhile 3 blocked)
        × Connects model unix UnixStream.waiting 3
            (UnixStream.poll_connect model unix 2 meanwhile 3 (UnixStream.waiting blocked)))
    × (Answers model unix 3 write (
          Datagram.poll_sending model unix 2 meanwhile 3
            (Datagram.send_to model (7 ∷ []) 9)
            blocked)
        × Answers model unix 3 read
            (Datagram.poll_receiving model unix 2 meanwhile 3 (Datagram.recv_from model 4) blocked))
sockets-Answers_example =
    sockets-Answers model unix meanwhile meanwhile-Calm 3 5 blocked (new_io model 0) (7 ∷ []) 4 9 9
      refl blocked_attached
