-- ===== src/Reactor/Registration/Poll.antt =====
-- src/reactor/registration.rs, `impl Registration`. The loops over `compare_and_swap` take fuel,
-- one unit a round; what other threads do between the accesses is `Others`.
use romio.Base.{
  ℕ, zero, suc, Bool, true, false, Option, none, some, bit_and, bit_or, ◌==◌, if◌then◌else◌, Waker,
  Poll, ready, pending, IoResult, ok, err, other_error, Outcome, done, panics,
}
use romio.Deps.{Deps}
use romio.Reactor.State.{Direction, read, write}
use romio.Reactor.Platform.{Platform}
use romio.Reactor.World.{World, Node, update, address, waker_pointer}
use romio.Reactor.Handle.{try_current}
use romio.Reactor.Registration.State.{
  Tie, Cell, init_state, locked_state, ready_state, lifecycle_mask, node_pointer,
}
use romio.Reactor.Registration.Source.{
  Gap, quiet, tie_new, tie_register, tie_deregister, tie_poll_ready,
}

-- What other threads do while this one runs `register2` or `poll_ready`.
pub record Others (d : Deps) : Type 0 where
  -- While the fallback reactor is made, and whether its thread can be spawned.
  pub creating : World d → World d
  pub spawned : Bool
  -- Before the `compare_and_swap` of `register2`, before its `swap`, and before that of `poll_ready`.
  pub before_lock : Cell d → Cell d
  pub before_unlock : Cell d → Cell d
  pub before_push : Cell d → Cell d
  pub before_waker : Gap d
  pub before_retry : Gap d

module _ (d : Deps) where
  open d use {Source}

  -- No other thread does anything.
  abbrev pub alone : Others d
  alone = record {
    creating = λ w. w;
    spawned = true;
    before_lock = λ c. c;
    before_unlock = λ c. c;
    before_push = λ c. c;
    before_waker = quiet d;
    before_retry = quiet d;
  }

  -- `let flag = match direction { .. }` and `if !*flag { *flag = true; .. }`
  unfoldable pub seen : Direction → Bool → Bool → Bool
  seen read read_seen write_seen = read_seen
  seen write read_seen write_seen = write_seen

  unfoldable pub mark : Direction → Direction → Bool → Bool
  mark read read flag = true
  mark read write flag = flag
  mark write read flag = flag
  mark write write flag = true

  -- One node: its box is freed, and if the flag was off the waker that it points to is registered. The
  -- pointer of a context that is gone is undefined behaviour, `panics` here.
  unfoldable pub visit : ℕ → Node → Bool → Tie → World d → Outcome (World d)
  visit ptr node flag tie w =
      let freed : World d = record w { boxes = update w.boxes ptr none } in
      let registered : Outcome (World d) = elim (w.contexts node.waker) [
        | none ↦ panics
        | some waker ↦ tie_register d waker node.direction tie freed
      ] in
      if flag then done freed else registered

  -- The loop of `register2` over the waiting nodes: each direction is registered once. `none` is
  -- out of fuel; a pointer to no box is undefined behaviour, `panics` here.
  unfoldable pub drain : ℕ → ℕ → Bool → Bool → Tie → World d → Option (Outcome (World d))
  drain zero ptr read_seen write_seen tie w = if ptr == 0 then some (done w) else none
  drain (suc fuel) ptr read_seen write_seen tie w =
      let rest : Option (Outcome (World d)) = elim (w.boxes ptr) [
        | none ↦ some panics
        | some node ↦ elim (visit ptr node (seen node.direction read_seen write_seen) tie w) [
          | done w' ↦
              drain fuel node.next (mark read node.direction read_seen)
                (mark write node.direction write_seen) tie w'
          | panics ↦ some panics
        ]
      ] in
      if ptr == 0 then some (done w) else rest

  -- `register2` from the swap of the state to `READY` on: every box that was ever made is fuel
  -- enough for the list of nodes.
  unfoldable pub unlock : IoResult (Unit {0}) → Cell d → Option (Outcome (IoResult Bool × Cell d))
  unlock res c = elim c.reg.inner [
    | none ↦ some panics
    | some tie ↦
        elim (drain (suc c.world.allocated) (node_pointer c.reg.state) false false tie c.world) [
          | none ↦ none
          | some panics ↦ some panics
          | some (done w) ↦ some (
              done (
                elim res [ ok _ ↦ ok true | err e ↦ err e ],
                record { reg = record (c.reg) { state = ready_state }; world = w },
              ))
        ]
  ]

  -- `register2` with the state locked.
  unfoldable pub associate :
      Others d → Source → ℕ → Cell d → Option (Outcome (IoResult Bool × Cell d))
  associate others io handle c =
      let (made, w) = tie_new d io handle c.world in
      unlock made.1 (
        others.before_unlock (record { reg = record (c.reg) { inner = some (made.0) }; world = w }))

  -- The `compare_and_swap` of `register2`: the state that it found, and what it leaves.
  unfoldable pub lock : Cell d → ℕ × Cell d
  lock c =
      if c.reg.state == init_state
      then (c.reg.state, record c { reg = record (c.reg) { state = locked_state } })
      else (c.reg.state, c)

  unfoldable pub register_loop :
      ℕ → Others d → Source → ℕ → Cell d → Option (Outcome (IoResult Bool × Cell d))
  register_loop zero others io state c = none
  register_loop (suc fuel) others io state c =
      let round : Option (Outcome (IoResult Bool × Cell d)) =
        elim (try_current d others.creating others.spawned c.world) [
          | panics ↦ some panics
          | done (err e, w) ↦ some (done (err e, record c { world = w }))
          | done (ok handle, w) ↦
              let (actual, c') = lock (others.before_lock (record c { world = w })) in
              let next = register_loop fuel others io actual c' in
              if actual == state then associate others io handle c' else next
        ] in
      if state == init_state then round else some (done (ok false, c))

  -- `Registration::register`; two rounds are enough.
  unfoldable pub register : Others d → Source → Cell d → Option (Outcome (IoResult Bool × Cell d))
  register others io c = register_loop 2 others io c.reg.state c

  -- `Registration::deregister`
  unfoldable pub deregister : Source → Cell d → IoResult (Unit {0}) × Cell d
  deregister io c = elim c.reg.inner [
    | none ↦ (ok tt, c)
    | some tie ↦ let (res, w) = tie_deregister d io tie c.world in (res, record c { world = w })
  ]

module _ (d : Deps) (p : Platform) where
  open d use {Ready}

  -- `node.take().unwrap_or_else(..)`, `n.next = next_ptr` and `Box::into_raw(n)`: the address of the
  -- node.
  unfoldable pub box_node : Option ℕ → Waker → Direction → ℕ → Cell d → ℕ × Cell d
  box_node none waker direction next c = (
    address c.world.allocated,
    record c {
      world = record (c.world) {
        boxes =
            update c.world.boxes (address c.world.allocated)
              (some (record { direction = direction; waker = waker_pointer waker; next = next }));
        allocated = suc c.world.allocated;
      };
    },
  )
  box_node (some ptr) waker direction next c = (
    ptr,
    record c {
      world = record (c.world) {
        boxes =
            update c.world.boxes ptr
              (some (record { direction = direction; waker = waker_pointer waker; next = next }));
      };
    },
  )

  -- The `compare_and_swap` of `poll_ready`.
  unfoldable pub push : ℕ → ℕ → Cell d → ℕ × Cell d
  push state next c =
      if c.reg.state == state
      then (c.reg.state, record c { reg = record (c.reg) { state = next } })
      else (c.reg.state, c)

  -- The loop of `poll_ready`: `state` is the word that it read, `kept` the box of its node.
  unfoldable pub poll_loop :
      ℕ
      → Others d
      → Option Waker
      → Direction
      → ℕ
      → Option ℕ
      → Cell d
      → Option (Outcome (IoResult (Option Ready) × Cell d))
  poll_loop zero others cx direction state kept c = none
  poll_loop (suc fuel) others cx direction state kept c =
      let locked : Option (Outcome (IoResult (Option Ready) × Cell d)) = elim cx [
        | none ↦ some (done (ok none, c))
        | some waker ↦
            let (ptr, c₁) = box_node kept waker direction (node_pointer state) c in
            let (actual, c₂) =
              push state (bit_or ptr (bit_and state lifecycle_mask)) (others.before_push c₁) in
            let next = poll_loop fuel others (some waker) direction actual (some ptr) c₂ in
            if actual == state then some (done (ok none, c₂)) else next
      ] in
      let tied : Option (Outcome (IoResult (Option Ready) × Cell d)) = elim c.reg.inner [
        | none ↦ some panics
        | some tie ↦
            elim (tie_poll_ready d p others.before_waker others.before_retry cx direction tie
              c.world) [
                | panics ↦ some panics
                | done (res, w) ↦ some (done (res, record c { world = w }))
              ]
      ] in
      if state == init_state
      then some (done (err (other_error "must call `register` before poll_read_ready"), c))
      else if state == ready_state
      then tied
      else if state == locked_state
      then locked
      else some panics

  -- `Registration::poll_ready`; two rounds are enough.
  unfoldable pub poll_ready :
      Others d
      → Option Waker
      → Direction
      → Cell d
      → Option (Outcome (IoResult (Option Ready) × Cell d))
  poll_ready others cx direction c = poll_loop 2 others cx direction c.reg.state none c

  -- The `match` of `poll_read_ready` and `poll_write_ready`
  unfoldable pub to_poll : IoResult (Option Ready) → Poll (IoResult Ready)
  to_poll (ok (some v)) = ready (ok v)
  to_poll (ok none) = pending
  to_poll (err e) = ready (err e)

  unfoldable pub poll_direction_ready :
      Others d → Waker → Direction → Cell d → Option (Outcome (Poll (IoResult Ready) × Cell d))
  poll_direction_ready others waker direction c =
      elim (poll_ready others (some waker) direction c) [
        | none ↦ none
        | some panics ↦ some panics
        | some (done (res, c')) ↦ some (done (to_poll res, c'))
      ]

  -- `poll_read_ready`, `poll_write_ready`, `take_read_ready` and `take_write_ready`
  unfoldable pub poll_read_ready :
      Others d → Waker → Cell d → Option (Outcome (Poll (IoResult Ready) × Cell d))
  poll_read_ready others waker c = poll_direction_ready others waker read c

  unfoldable pub poll_write_ready :
      Others d → Waker → Cell d → Option (Outcome (Poll (IoResult Ready) × Cell d))
  poll_write_ready others waker c = poll_direction_ready others waker write c

  unfoldable pub take_read_ready :
      Others d → Cell d → Option (Outcome (IoResult (Option Ready) × Cell d))
  take_read_ready others c = poll_ready others none read c

  unfoldable pub take_write_ready :
      Others d → Cell d → Option (Outcome (IoResult (Option Ready) × Cell d))
  take_write_ready others c = poll_ready others none write c
