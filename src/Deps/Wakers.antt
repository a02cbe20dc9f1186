-- ===== src/Deps/Wakers.antt =====
-- `futures::task::AtomicWaker`: a cell that holds the waker last registered, until it is taken.
use romio.Base.{◌≡◌, Option, none, some, Waker}

pub record WakerApi : Type 1 where
  pub AtomicWaker : Type 0
  -- `AtomicWaker::new()`, `register(&waker)` and `take()`. `wake()` is `take()` and a wake of what
  -- it returns.
  pub new_waker : AtomicWaker
  pub register_waker : Waker → AtomicWaker → AtomicWaker
  pub take_waker : AtomicWaker → Option Waker × AtomicWaker
  pub take-new : (take_waker new_waker).0 ≡ none
  pub take-register : (w : Waker) (c : AtomicWaker) → (take_waker (register_waker w c)).0 ≡ some w
  pub take-take : (c : AtomicWaker) → (take_waker (take_waker c).1).0 ≡ none
