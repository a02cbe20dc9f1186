-- ===== src/Background/State.antt =====
-- src/reactor/background.rs: what the handle of a background reactor and its thread share.
use romio.Base.{ℕ, Bool, Option, none}
use romio.Deps.{Deps}
use romio.Reactor.Turn.{Loop}

-- `SHUTDOWN_IDLE`, `SHUTDOWN_NOW` and `SHUTDOWN`; the word is 0 while the reactor runs.
abbrev pub shutdown_idle : ℕ
shutdown_idle = 1

abbrev pub shutdown_at_once : ℕ
shutdown_at_once = 2

abbrev pub shutdown_complete : ℕ
shutdown_complete = 3

-- `struct Shared`
pub record Shared (d : Deps) : Type 0 where
  pub shutdown : ℕ
  pub shutdown_task : d.AtomicWaker

-- The shared state, the reactor, and whether the reactor is still there.
pub record Site (d : Deps) : Type 0 where
  pub shared : Shared d
  pub loop : Loop d
  pub alive : Bool

-- `struct Background`: the address of the reactor, which is also that of its shared state here.
pub record Background : Type 0 where
  pub inner : Option ℕ

module _ (d : Deps) where
  -- `Arc::new(Shared { .. })` in `Background::new`
  unfoldable pub new_shared : Shared d
  new_shared = record { shutdown = 0; shutdown_task = d.new_waker }

-- `Background::forget`: the handle is dropped with nothing in it.
unfoldable pub forget : Background → Background
forget b = record { inner = none }
