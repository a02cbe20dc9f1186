-- ===== src/Reactor/State.antt =====
-- src/reactor/mod.rs: the data of the reactor. Atomics are plain numbers; what other threads do
-- between two accesses is an argument or a step of the models that need it.
use romio.Base.{ℕ}
use romio.Deps.{Deps}

-- `enum Direction`
pub data Direction : Type 0 where
  read write : Direction

-- `struct ScheduledIo`
pub record ScheduledIo (d : Deps) : Type 0 where
  pub aba_guard : ℕ
  pub readiness : ℕ
  pub reader : d.AtomicWaker
  pub writer : d.AtomicWaker

-- `struct Inner`: `io` is the number of the `mio::Poll`, `wakeup` that of the `SetReadiness`.
pub record Inner (d : Deps) : Type 0 where
  pub io : ℕ
  pub next_aba_guard : ℕ
  pub io_dispatch : d.Slab (ScheduledIo d)
  pub wakeup : ℕ

-- `const TOKEN_SHIFT`, `MAX_SOURCES`, `TOKEN_WAKEUP`
abbrev pub token_shift : ℕ
token_shift = 22

abbrev pub max_sources : ℕ
max_sources = 4194303

abbrev pub token_wakeup : ℕ
token_wakeup = max_sources
