-- ===== src/Reactor/World.antt =====
-- What the threads of a process share: the reactors behind their `Arc`s, the fallback handle, the
-- boxes of waiting nodes, the operating system, and the tasks woken so far.
use romio.Base.{ℕ, suc, ◌*◌, Option, none, some, List, ◌++◌, ◌==◌, if◌then◌else◌, Waker}
use romio.Deps.{Deps}
use romio.Reactor.State.{Direction, Inner}
use romio.Reactor.Sources.{drop_inner}

-- `struct Node` of src/reactor/registration.rs; `waker` is the pointer to the waker of the context
-- that the task was polled with.
pub record Node : Type 0 where
  pub direction : Direction
  pub waker : ℕ
  pub next : ℕ

pub record World (d : Deps) : Type 0 where
  pub os : d.Os
  -- The reactor at an address, until its last `Arc` is dropped: what `Weak::upgrade` returns.
  pub reactors : ℕ → Option (Inner d)
  -- `HANDLE_FALLBACK`, an address or 0
  pub handle_fallback : ℕ
  -- `CURRENT_REACTOR` of the running thread
  pub current_reactor : Option ℕ
  pub boxes : ℕ → Option Node
  -- What a pointer to the waker of a context points to; nothing once the context is gone.
  pub contexts : ℕ → Option Waker
  -- The allocations made so far: each has an address of its own, a multiple of 8 and not 0.
  pub allocated : ℕ
  pub woken : List Waker

abbrev pub update {ℓ} : {A : Type ℓ} → (ℕ → A) → ℕ → A → ℕ → A
update f k a j = if k == j then a else f j

-- `cx.waker() as *const Waker`: the contexts of different tasks have different wakers, so a task's
-- own number stands for the address.
abbrev pub waker_pointer : Waker → ℕ
waker_pointer w = w

-- The address of the next allocation.
abbrev pub address : ℕ → ℕ
address n = 8 * suc n

module _ (d : Deps) where
  -- `HandlePriv::inner`
  unfoldable pub upgrade : ℕ → World d → Option (Inner d)
  upgrade handle w = w.reactors handle

  unfoldable pub put_reactor : ℕ → Inner d → World d → World d
  put_reactor handle inner w = record w { reactors = update w.reactors handle (some inner) }

  unfoldable pub wake : List Waker → World d → World d
  wake tasks w = record w { woken = w.woken ++ tasks }

  -- `Arc::new(inner)`
  unfoldable pub new_reactor : Inner d → World d → ℕ × World d
  new_reactor inner w = (
    address w.allocated,
    record w {
      reactors = update w.reactors (address w.allocated) (some inner);
      allocated = suc w.allocated;
    },
  )

  -- The drop of the last `Arc`, with `impl Drop for Inner`.
  unfoldable pub drop_reactor : ℕ → World d → World d
  drop_reactor handle w = elim (w.reactors handle) [
    | none ↦ w
    | some inner ↦ record w {
      reactors = update w.reactors handle none;
      woken = w.woken ++ drop_inner d inner;
    }
  ]
