-- ===== src/Reactor/Registration/State.antt =====
-- src/reactor/registration.rs: the data of a registration, and the words of its state.
use romio.Base.{ℕ, Option, bit_and, none}
use romio.Base.Bits.{bit_not}
use romio.Deps.{Deps}
use romio.Reactor.World.{World}

-- `INIT`, `LOCKED`, `READY`, `LIFECYCLE_MASK`, and `ERROR`, the largest `usize`
abbrev pub init_state : ℕ
init_state = 0

abbrev pub locked_state : ℕ
locked_state = 1

abbrev pub ready_state : ℕ
ready_state = 2

abbrev pub lifecycle_mask : ℕ
lifecycle_mask = 3

abbrev pub error_token : ℕ
error_token = 18446744073709551615

-- `struct Inner` of this file: `handle` is the address of the reactor.
pub record Tie : Type 0 where
  pub handle : ℕ
  pub token : ℕ

-- `struct Registration`
pub record Registration : Type 0 where
  pub inner : Option Tie
  pub state : ℕ

-- `Registration::new`
unfoldable pub new : Registration
new = record { inner = none; state = init_state }

-- The registration, and what its code reads and writes besides.
pub record Cell (d : Deps) : Type 0 where
  pub reg : Registration
  pub world : World d

-- `state & !LIFECYCLE_MASK`, the pointer in the state
unfoldable pub node_pointer : ℕ → ℕ
node_pointer state = bit_and state (bit_not lifecycle_mask)
