-- ===== src/Deps/Kernel.antt =====
-- `mio::Poll`, `mio::Registration`/`SetReadiness` and `mio::Evented` sources, over the state of the
-- operating system. Nothing is assumed of them: each call may fail.
use romio.Base.{ℕ, Option, List, IoResult}

-- `mio::PollOpt::level()` and `edge()`
pub data PollOpt : Type 0 where
  level edge : PollOpt

-- `mio::Event`
pub record Event (Ready : Type 0) : Type 0 where
  pub token : ℕ
  pub readiness : Ready

pub record KernelApi (Ready : Type 0) : Type 1 where
  pub Os : Type 0
  -- An I/O object that implements `Evented`.
  pub Source : Type 0
  -- `Poll::new()`: the number of the new event queue.
  pub poll_new : Os → IoResult ℕ × Os
  pub poll_register : ℕ → Source → ℕ → Ready → PollOpt → Os → IoResult (Unit {0}) × Os
  pub poll_deregister : ℕ → Source → Os → IoResult (Unit {0}) × Os
  -- `Poll::poll(&mut events, max_wait)`: the events that came in.
  pub poll_wait : ℕ → Option ℕ → Os → IoResult (List (Event Ready)) × Os
  -- `mio::Registration::new2()`: a source, and the number of its `SetReadiness`.
  pub registration_new2 : Os → (Source × ℕ) × Os
  pub set_readiness : ℕ → Ready → Os → IoResult (Unit {0}) × Os
