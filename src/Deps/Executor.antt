-- ===== src/Deps/Executor.antt =====
-- `futures::executor`. A future is the function that polls it.
use romio.Base.{Option, some, Poll, ready, ◌≡◌}

pub record ExecutorApi (S : Type 0) : Type 1 where
  -- `block_on`: the output, with the state that it leaves, or `none` if it never returns.
  pub block_on : {A : Type 0} → (S → Poll A × S) → S → Option (A × S)
  -- It blocks until the future has completed, and not longer.
  pub block_on-ready :
      {A : Type 0} (poll : S → Poll A × S) (s : S) (a : A) (t : S)
      → poll s ≡ (ready a, t)
      → block_on poll s ≡ some (a, t)
