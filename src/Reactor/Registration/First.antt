-- ===== src/Reactor/Registration/First.antt =====
-- src/reactor/registration.rs: what the first registration settles for all later calls.
use romio.Base.{
  ℕ, ◌≡◌, ◌≢◌, refl, Bool, true, false, Option, some, arith, ap, ◌∙◌, Waker, IoResult, ok, err,
  IoError, other_error, done,
}
use romio.Base.Bits.{complement}
use romio.Deps.{Deps}
use romio.Reactor.State.{Direction, Inner}
use romio.Reactor.Platform.{Platform}
use romio.Reactor.World.{World, update, upgrade, put_reactor}
use romio.Reactor.Sources.{add_source}
use romio.Reactor.Handle.{try_current}
use romio.Reactor.Registration.State.{
  Tie, Cell, init_state, locked_state, ready_state, error_token, node_pointer,
}
use romio.Reactor.Registration.Source.{tie_new, tie_poll_ready}
use romio.Reactor.Registration.Poll.{
  Others, alone, drain, unlock, associate, lock, register_loop, register, poll_loop, poll_ready,
}

module _ (d : Deps) where
  -- Once the state has left `INIT`, whatever became of the registration, `register` returns
  -- `Ok(false)` and changes nothing.
  pub register_again :
      (others : Others d) (source : d.Source) (c : Cell d)
      → c.reg.state ≢ init_state
      → register d others source c ≡ some (done (ok false, c))
  unfolding register register_loop
  register_again others source c ne = ground arith

  abbrev pub token_or_error : IoResult ℕ → ℕ
  token_or_error (ok token) = token
  token_or_error (err e) = error_token

  abbrev pub true_or_error : IoResult ℕ → IoResult Bool
  true_or_error (ok token) = ok true
  true_or_error (err e) = err e

  -- The registration and the world after the first registration with a live reactor.
  abbrev pub registered : d.Source → ℕ → Inner d → Cell d → Cell d
  registered source handle inner c =
      let (res, inner', os') = add_source d source inner c.world.os in
      record {
        reg = record {
          inner = some (record { handle = handle; token = token_or_error res });
          state = ready_state;
        };
        world = record (c.world) {
          os = os';
          reactors = update c.world.reactors handle (some inner');
        };
      }

  abbrev unit_or_error : IoResult ℕ → IoResult (Unit {0})
  unit_or_error (ok token) = ok tt
  unit_or_error (err e) = err e

  abbrev tied : ℕ → IoResult ℕ → Tie
  tied handle res = record { handle = handle; token = token_or_error res }

  tie_new-alive :
      (source : d.Source) (handle : ℕ) (inner : Inner d) (w : World d)
      → w.reactors handle ≡ some inner
      → let added = add_source d source inner w.os in
        tie_new d source handle w ≡ (
          (tied handle added.0, unit_or_error added.0),
          record w { os = added.2; reactors = update w.reactors handle (some (added.1)) },
        )
  unfolding tie_new upgrade put_reactor
  tie_new-alive source handle inner w alive = ground arith

  abbrev outcome_of : IoResult (Unit {0}) → IoResult Bool
  outcome_of (ok _) = ok true
  outcome_of (err e) = err e

  outcome_of-unit_or_error : (r : IoResult ℕ) → outcome_of (unit_or_error r) ≡ true_or_error r
  outcome_of-unit_or_error (ok token) = refl
  outcome_of-unit_or_error (err e) = refl

  -- With no node in the state nobody is to be registered.
  unlock-locked :
      (res : IoResult (Unit {0})) (tie : Tie) (w : World d)
      → unlock d res (record { reg = record { inner = some tie; state = locked_state }; world = w })
        ≡ some (
            done (
              outcome_of res,
              record { reg = record { inner = some tie; state = ready_state }; world = w },
            ))
  unfolding unlock drain node_pointer complement
  unlock-locked (ok _) tie w = refl
  unlock-locked (err e) tie w = refl

  associate-alone :
      (source : d.Source) (handle : ℕ) (inner : Inner d) (c : Cell d)
      → c.reg.state ≡ locked_state
      → c.world.reactors handle ≡ some inner
      → associate d (alone d) source handle c
        ≡ some (
            done (
              true_or_error (add_source d source inner c.world.os).0,
              registered source handle inner c,
            ))
  unfolding associate
  associate-alone source handle inner c locked alive =
      rw (associate, tie_new-alive source handle inner c.world alive, locked)
        (rw (unlock-locked _ _ _, outcome_of-unit_or_error _))

  -- The first registration, with nobody else at work and a handle to a reactor that is alive, the
  -- current one or the fallback, made before or now: the source is added to that reactor, the registration is ready under the source's token, and the result is
  -- `Ok(true)`, or the error of `add_source` with the token `ERROR`.
  pub register_first :
      (source : d.Source) (handle : ℕ) (inner : Inner d) (c : Cell d) (world : World d)
      → c.reg.state ≡ init_state
      → try_current d (λ w. w) true c.world ≡ done (ok handle, world)
      → world.reactors handle ≡ some inner
      → register d (alone d) source c
        ≡ some (
            done (
              true_or_error (add_source d source inner world.os).0,
              registered source handle inner (record c { world = world }),
            ))
  unfolding register register_loop lock
  register_first source handle inner c world init current alive = ground (
    arith,
    associate-alone source handle inner
        (record c { reg = record (c.reg) { state = locked_state }; world = world }) refl alive,
  )

  -- A first registration that the reactor refuses is final: if a handle to a live reactor was found
  -- and its `add_source` returns an error, then `register` returns that error, later calls of it
  -- return `Ok(false)`, and every poll of either direction returns the error of a registration with no
  -- source, whatever other threads do meanwhile.
  pub failed_registration_sticks :
      (p : Platform) (source : d.Source) (handle : ℕ) (inner : Inner d) (c : Cell d)
      (world : World d) (e : IoError) (others : Others d) (cx : Option Waker) (dir : Direction)
      → c.reg.state ≡ init_state
      → try_current d (λ w. w) true c.world ≡ done (ok handle, world)
      → world.reactors handle ≡ some inner
      → (add_source d source inner world.os).0 ≡ err e
      → (c' : Cell d) × (register d (alone d) source c ≡ some (done (err e, c')))
        × (register d others source c' ≡ some (done (ok false, c')))
        × (poll_ready d p others cx dir c'
            ≡ some (done (err (other_error "failed to associate with reactor"), c')))
  unfolding poll_ready poll_loop tie_poll_ready
  failed_registration_sticks p source handle inner c world e others cx dir init current alive
        failed =
      (
        registered source handle inner (record c { world = world }),
        register_first source handle inner c world init current alive
            ∙ ap
                (λ (r : IoResult ℕ). some (
                  done
                    (true_or_error r, registered source handle inner (record c { world = world }))))
                failed,
        register_again others source _ (omega arith),
        ground (arith, failed),
      )
