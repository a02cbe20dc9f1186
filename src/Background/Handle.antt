-- ===== src/Background/Handle.antt =====
-- src/reactor/background.rs, `impl Drop for Background`: the handle tells the thread to stop, and blocks
-- until it has. What other threads do is a function.
use romio.Base.{ℕ, Option, none, some, Waker, Outcome, done, panics}
use romio.Deps.{Deps}
use romio.Deps.Executor.{ExecutorApi}
use romio.Background.State.{Site, Background}
use romio.Background.Thread.{shutdown_now, poll_shutdown}

module _ (d : Deps) (ex : ExecutorApi (Site d)) where
  -- `let _ = executor::block_on(shutdown);`, with the waker that the executor makes
  unfoldable pub wait : (Site d → Site d) → Waker → Site d → Option (Outcome (Site d))
  wait others waker s = elim (ex.block_on (poll_shutdown d others waker) s) [
    | none ↦ none
    | some (_, s') ↦ some (done s')
  ]

  unfoldable pub drop_background :
      ℕ → (Site d → Site d) → Waker → Background → Site d → Option (Outcome (Site d))
  drop_background fuel others waker b s = elim b.inner [
    | none ↦ some (done s)
    | some handle ↦ elim (shutdown_now d fuel others s) [
      | none ↦ none
      | some panics ↦ some panics
      | some (done s') ↦ wait others waker s'
    ]
  ]
