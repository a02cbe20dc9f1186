-- ===== src/Reactor/Registration/Dangling.antt =====
-- src/reactor/registration.rs: a waiter whose context is gone before its node is visited.
use romio.Base.{
  ℕ, suc, ◌<◌, ◌^◌, ◌≡◌, ◌≢◌, false, none, Option, panics, some, arith, Waker, IoResult, ok, done,
}
use romio.Base.Bits.{usize_bits}
use romio.Deps.{Deps}
use romio.Reactor.State.{Direction, read, write}
use romio.Reactor.Platform.{Platform}
use romio.Reactor.World.{World, waker_pointer, address}
use romio.Reactor.Registration.State.{Tie, Cell, locked_state, node_pointer}
use romio.Reactor.Registration.Poll.{alone, seen, visit, drain, unlock, poll_ready}
use romio.Reactor.Registration.Waiters.{pointer_lem, with_contexts, queued, poll_ready-queued}

module _ (d : Deps) (p : Platform) where
  drain-dangling :
      (fuel ptr : ℕ) (dir : Direction) (waker next : ℕ) (tie : Tie) (world : World d)
      → ptr ≢ 0
      → world.boxes ptr ≡ some (record { direction = dir; waker = waker; next = next })
      → world.contexts waker ≡ none
      → drain d (suc fuel) ptr false false tie world ≡ some panics
  unfolding drain visit seen
  drain-dangling fuel ptr read waker next tie world ne boxed gone = ground (arith, boxed, gone)
  drain-dangling fuel ptr write waker next tie world ne boxed gone = ground (arith, boxed, gone)

  -- A waiter whose context does not last is undefined behaviour, a panic here: a task that polls while
  -- another thread makes the registration, and finds the state locked, gets `Pending`; if the context of
  -- that poll is gone when the other thread leaves the locked state, that thread follows the node's
  -- pointer to a waker that is no longer there. The address of the waiter's box fits a word.
  pub dangling_waiter :
      (w : Waker) (dir : Direction) (tie : Tie) (res : IoResult (Unit {0}))
      (contexts : ℕ → Option Waker) (c : Cell d)
      → c.reg.state ≡ locked_state
      → c.reg.inner ≡ some tie
      → address c.world.allocated < 2 ^ usize_bits
      → contexts (waker_pointer w) ≡ none
      → (c' : Cell d) × (poll_ready d p (alone d) (some w) dir c ≡ some (done (ok none, c')))
        × (unlock d res (with_contexts d p contexts c') ≡ some panics)
  unfolding unlock
  dangling_waiter w dir tie res contexts c locked tied fits gone =
      let c' = queued d p w dir c in
      let ptr = address c.world.allocated in
      let at : node_pointer c'.reg.state ≡ ptr = pointer_lem c.world.allocated fits in
      let drained =
        drain-dangling (suc c.world.allocated) ptr dir (waker_pointer w) 0 tie
          (with_contexts d p contexts c').world (omega arith) (ground arith) gone in
      (c', poll_ready-queued d p w dir c locked, ground (arith, tied, at, drained))
