-- ===== src/Lib.antt =====
-- A model of romio, asynchronous I/O over mio.
--
-- The program. A reactor (src/reactor/mod.rs) waits for the events of a `mio::Poll` and keeps a slab
-- of I/O sources: for each, the flags that came in and a waker of the task that reads and of the task
-- that writes. A registration (src/reactor/registration.rs) ties an I/O object to a reactor on its
-- first use and polls the flags of its source. `PollEvented` (src/raw/poll_evented.rs) owns a
-- `mio::Evented` object with its registration, caches the readiness that it has seen, and turns
-- non-blocking calls into polls. A reactor may run on a thread of its own
-- (src/reactor/background.rs). The sockets (src/tcp, src/udp.rs, src/uds) are each a `PollEvented`
-- around a socket of mio.
--
-- The files.
-- - Base: shared names, Boolean tests on numbers (Base/Tests), the parts of Rust's standard library
--   that the sources use (Base/Io), and words as numbers with their bits (Base/Bits).
-- - Deps: what the sources call and do not contain, as interfaces: `mio::Ready` (Deps/Ready),
--   `AtomicWaker` (Deps/Wakers), `Slab` (Deps/Slabs), `mio::Poll` with its registrations
--   (Deps/Kernel), the sockets of the operating system (Deps/Sockets) with their options
--   (Deps/Options), libc (Deps/Credentials), and the executor of futures (Deps/Executor). Their laws
--   state what their documentation promises. Calls of the operating system have no law: each may fail.
-- - Reactor, for src/reactor/mod.rs. State has the data; Platform the flags of `mod platform`; Tokens
--   the packing of guard and key; Dispatch `Reactor::dispatch`; Sources `add_source`, `drop_source`,
--   `register` and the drop of `Inner`; Turn `Reactor::new`, `turn`, `poll` and `wakeup`; World what
--   the threads of a process share; Handle `Handle` and `HandlePriv`, with the fallback reactor. The
--   proofs are in Tokens/Packing, Valid, Delivery, Events, Waits, Wakings, History, LiveTokens,
--   Leaks and Refused.
-- - Reactor/Fallback, for `HandlePriv::fallback` of the same file. Race has the accesses of any number
--   of threads that create the fallback reactor as steps that any order may take, and Code the schedule
--   in which they follow the function. The proofs are in Invariant and Agreement.
-- - Reactor/Registration, for src/reactor/registration.rs. State has the words of the state; Source
--   the methods of `Inner`; Poll those of `Registration`; Wakeup the accesses of `poll_ready` and of
--   `dispatch` as steps that any order may take; Abstract a set of flags that a source refines;
--   Interference what other threads may do to a source between the accesses of `poll_ready`. The
--   proofs are in Flags, Streams, Rounds, First, Waiters, Dangling, Abstract, Disturbed and Wakeup.
-- - Reactor/ShardedRwlock, for src/reactor/sharded_rwlock.rs. Machine has the shards with their readers
--   and writers, over the lock of parking_lot (Deps/Locks), Value the value behind the guards and what
--   threads see of it, Atomic the one reader-writer lock that they should see, Indices the registry of
--   thread indices, and Size the number of shards and the shard of a thread. The proofs are in
--   Exclusion, LastShard, Refines, Progress, Distinct and Size, with lemmas on counting in Counts.
-- - PollEvented, for src/raw/poll_evented.rs. State has the data and the monad of the methods, Ready
--   the readiness, Io reading, writing and the drop, Match the same with a `match` as the sockets have
--   it, Delegate a call of the object. Attached describes a registered object, while other threads
--   dispatch events to it; Contract, Settling and Polls say what a poll of it does, Operations what an
--   operation does, Turns what a turn of its reactor does for a task that waits, and FirstUse what an
--   operation does on a new object. The other proofs are in Blocking and Lifetime.
-- - Background, for src/reactor/background.rs. State has the data, Thread `run`, `shutdown_now` and
--   the `Shutdown` future, Handle the drop of the handle, Blocked the thread as
--   the drop of the handle meets it, in a turn until mio returns, Machine the accesses of both threads as steps
--   that any order may take. The proofs are in Stages, Invariant, Stops, Joined, Shutdown and Liveness.
-- - Tcp, Udp and Uds, for src/tcp, src/udp.rs and src/uds: connecting, accepting, streams, datagrams,
--   and in Options, ListenerOptions and DatagramOptions the methods that only pass a call on.
--   Uds/Credentials is src/uds/ucred.rs. The proofs are in Tcp/Connect, Uds/Connect and
--   Uds/PeerCred, and for all sockets together in Sockets, Sockets/Accepting and Sockets/Connecting.
-- - Examples: the interfaces filled with concrete functions, and the theorems at concrete inputs.
--
-- How the code is modelled. A `usize` is a natural number below 2^64, with the wrap-around written
-- out. A waker is the number of the task that it wakes, and operations return or record the tasks
-- that they wake, in order. A panic (`unwrap`, `unreachable!`, an index with no value) is an outcome,
-- `panics`. Atomic accesses are sequentially consistent: the memory orderings of the sources are not
-- modelled. What other threads do between the accesses of a loop over `compare_and_swap` is an
-- arbitrary function (`Others`), and the race of `Inner::poll_ready` with `dispatch` is a step
-- relation (Wakeup). A section under the reader-writer lock around the slab is one step of the
-- reactor, but for the atomics of a source, which threads share under the read lock. An `Arc` is an
-- address in `World`, a `Weak` an address that may be gone; a `Box<Node>` an address divisible by 8; a
-- `*const Waker` a number under which `World` has the waker of a context as long as the context is
-- alive. To follow a pointer to what is gone is undefined behaviour, and `panics` in the model.
--
-- Fuel. The two loops of a registration take two units, one for each round, and the loop of
-- `shutdown_now` three. The drain of the waiting nodes takes one unit for each allocation ever made,
-- and one more. The loop of `PollEvented::poll_read_ready` and that of the background thread take
-- their fuel as an argument: other threads can keep them going. Two rounds are enough for the former
-- as long as the events that come in meanwhile carry no flags but `readable`, `writable` and HUP.
-- `next_power_of_two` takes as many doublings as there are processors.
--
-- Not modelled: the logs and the `Debug` instances.
-- `PollEvented`'s readiness is modelled for one caller at a time. src/lib.rs, src/raw/mod.rs,
-- src/tcp/mod.rs and src/uds/mod.rs only declare modules and pass names on.
pub mod Base
pub mod Deps
pub mod Reactor
pub mod PollEvented
pub mod Background
pub mod Tcp
pub mod Udp
pub mod Uds
pub mod Sockets
pub mod Examples
