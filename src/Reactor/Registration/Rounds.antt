-- ===== src/Reactor/Registration/Rounds.antt =====
-- src/reactor/registration.rs: the loops over `compare_and_swap` take two rounds at most, whatever
-- other threads do; and what the first registration settles for all later calls.
use romio.Base.{
  ℕ, suc, ◌+◌, ◌*◌, ◌^◌, ◌∙◌, ◌≡◌, ◌≢◌, refl, Option, none, some, arith, bit_and, bit_or, Waker, ok,
  done, panics,
}
use romio.Base.Bits.{bit_or-add}
use romio.Deps.{Deps}
use romio.Reactor.State.{Direction}
use romio.Reactor.Platform.{Platform}
use romio.Reactor.World.{address}
use romio.Reactor.Registration.State.{
  Cell, init_state, locked_state, ready_state, lifecycle_mask, node_pointer,
}
use romio.Reactor.Registration.Poll.{Others, alone, box_node, push, poll_loop, poll_ready}

-- The word of a locked state with the node of an allocation.
pub locked_word : (n : ℕ) → bit_or (address n) locked_state ≡ address n + locked_state
locked_word n =
    let e : 8 * suc n ≡ suc n * 2 ^ 3 = omega arith in rw e (bit_or-add 3 (suc n) 1 (omega arith))

module _ (d : Deps) (p : Platform) where
  -- Once the state is another word than the locked one, one round ends the loop.
  poll_loop-one :
      (others : Others d) (cx : Option Waker) (dir : Direction) (state : ℕ) (kept : Option ℕ)
      (c : Cell d)
      → state ≢ locked_state
      → poll_loop d p 1 others cx dir state kept c ≢ none
  unfolding poll_loop
  poll_loop-one others cx dir state kept c ne = ground arith

  -- A round that does not end the loop leaves a word that ends it in the next.
  poll_loop-suc :
      (fuel : ℕ) (others : Others d) (waker : Waker) (dir : Direction) (state : ℕ) (kept : Option ℕ)
      (c : Cell d)
      → ((actual ptr : ℕ) (c' : Cell d)
          → actual ≢ locked_state
          → poll_loop d p fuel others (some waker) dir actual (some ptr) c' ≢ none)
      → poll_loop d p (suc fuel) others (some waker) dir state kept c ≢ none
  unfolding poll_loop
  poll_loop-suc fuel others waker dir state kept c ends =
      let boxed = box_node d p kept waker dir (node_pointer state) c in
      let pushed =
        push d p state (bit_or boxed.0 (bit_and state lifecycle_mask))
          (others.before_push boxed.1) in
      ground (arith, ends pushed.0 boxed.0 pushed.1)

  poll_loop-none :
      (fuel : ℕ) (others : Others d) (dir : Direction) (state : ℕ) (kept : Option ℕ) (c : Cell d)
      → poll_loop d p (suc fuel) others none dir state kept c ≢ none
  unfolding poll_loop
  poll_loop-none fuel others dir state kept c = ground arith

  -- `poll_ready` returns or panics within two rounds, whatever other threads do before its
  -- `compare_and_swap`: it never runs out of fuel.
  pub poll_ready_ends :
      (others : Others d) (cx : Option Waker) (dir : Direction) (c : Cell d)
      → poll_ready d p others cx dir c ≢ none
  unfolding poll_ready
  poll_ready_ends others none dir c = poll_loop-none 1 others dir c.reg.state none c
  poll_ready_ends others (some waker) dir c =
      poll_loop-suc 1 others waker dir c.reg.state none c
        (λ actual ptr c' ne. poll_loop-one others (some waker) dir actual (some ptr) c' ne)

  -- A word that is none of the three states.
  poll_loop-unreachable :
      (fuel : ℕ) (others : Others d) (cx : Option Waker) (dir : Direction) (state : ℕ)
      (kept : Option ℕ) (c : Cell d)
      → state ≢ init_state
      → state ≢ locked_state
      → state ≢ ready_state
      → poll_loop d p (suc fuel) others cx dir state kept c ≡ some panics
  unfolding poll_loop
  poll_loop-unreachable fuel others cx dir state kept c ne_init ne_locked ne_ready = ground arith

  poll_loop-locked :
      (fuel : ℕ) (waker : Waker) (dir : Direction) (c : Cell d)
      → c.reg.state ≡ locked_state
      → (c' : Cell d) × (poll_loop d p (suc fuel) (alone d) (some waker) dir c.reg.state none c
          ≡ some (done (ok none, c')))
        × (c'.reg.state ≡ bit_or (address c.world.allocated) locked_state)
  unfolding poll_loop push box_node node_pointer
  poll_loop-locked fuel waker dir c locked =
      (record boxed { reg = record (boxed.reg) { state = word } }, ground arith, refl)
    where
      boxed : Cell d
      boxed = (box_node d p none waker dir (node_pointer c.reg.state) c).1

      word : ℕ
      word = bit_or (address c.world.allocated) locked_state

  -- A waiter that polls while the state is locked puts its node into the state; the next poll, of
  -- whatever task and direction, then panics at `unreachable!()`.
  pub second_waiter_panics :
      (first : Waker) (second : Option Waker) (dir dir' : Direction) (others : Others d)
      (c : Cell d)
      → c.reg.state ≡ locked_state
      → (c' : Cell d) × (poll_ready d p (alone d) (some first) dir c ≡ some (done (ok none, c')))
        × (c'.reg.state ≡ address c.world.allocated + locked_state)
        × (poll_ready d p others second dir' c' ≡ some panics)
  unfolding poll_ready
  second_waiter_panics first second dir dir' others c locked =
      let (c', queued, word) = poll_loop-locked 1 first dir c locked in
      let sum : c'.reg.state ≡ address c.world.allocated + locked_state =
        word ∙ locked_word c.world.allocated in
      (
        c',
        queued,
        sum,
        poll_loop-unreachable 1 others second dir' c'.reg.state none c' (omega (arith, sum))
            (omega (arith, sum)) (omega (arith, sum)),
      )
