-- ===== src/Reactor/Registration/Source.antt =====
-- src/reactor/registration.rs, `impl Inner`: what a registration does with its reactor.
use romio.Base.{
  ℕ, Option, none, some, List, [], ◌∷◌, ◌++◌, bit_and, ◌==◌, if◌then◌else◌, Waker, IoResult, ok,
  err, other_error, Outcome, done, panics,
}
use romio.Base.Bits.{bit_not}
use romio.Deps.{Deps}
use romio.Reactor.State.{Direction, ScheduledIo}
use romio.Reactor.Platform.{Platform, hup, mask}
use romio.Reactor.Sources.{
  add_source, deregister_source, drop_source, register, waker_of, set_waker,
}
use romio.Reactor.World.{World, upgrade, put_reactor, wake}
use romio.Reactor.Registration.State.{Tie, error_token}

module _ (d : Deps) where
  open d use {Source}

  -- `Inner::new`: a registration that fails keeps the token `ERROR`.
  unfoldable pub tie_new : Source → ℕ → World d → (Tie × IoResult (Unit {0})) × World d
  tie_new io handle w = elim (upgrade d handle w) [
    | none ↦
        ((record { handle = handle; token = error_token }, err (other_error "event loop gone")), w)
    | some inner ↦
        let (res, inner', os') = add_source d io inner w.os in
        let w' : World d = put_reactor d handle inner' (record w { os = os' }) in
        elim res [
          | ok token ↦ ((record { handle = handle; token = token }, ok tt), w')
          | err e ↦ ((record { handle = handle; token = error_token }, err e), w')
        ]
  ]

  -- `Inner::register`
  unfoldable pub tie_register : Waker → Direction → Tie → World d → Outcome (World d)
  tie_register waker direction tie w =
      if tie.token == error_token
      then done (wake d (waker ∷ []) w)
      else elim (upgrade d tie.handle w) [
        | none ↦ done (wake d (waker ∷ []) w)
        | some inner ↦ elim (register d waker tie.token direction inner) [
          | done (inner', woken) ↦ done (wake d woken (put_reactor d tie.handle inner' w))
          | panics ↦ panics
        ]
      ]

  -- `Inner::deregister`
  unfoldable pub tie_deregister : Source → Tie → World d → IoResult (Unit {0}) × World d
  tie_deregister io tie w =
      if tie.token == error_token
      then (err (other_error "failed to associate with reactor"), w)
      else elim (upgrade d tie.handle w) [
        | none ↦ (err (other_error "reactor gone"), w)
        | some inner ↦
            let (res, os') = deregister_source d io inner w.os in (res, record w { os = os' })
      ]

  -- `impl Drop for Inner`
  unfoldable pub tie_drop : Tie → World d → Outcome (World d)
  tie_drop tie w = if tie.token == error_token then done w else elim (upgrade d tie.handle w) [
    | none ↦ done w
    | some inner ↦ elim (drop_source d tie.token inner) [
      | done inner' ↦ done (put_reactor d tie.handle inner' w)
      | panics ↦ panics
    ]
  ]

  -- What other threads do to the atomics of a source between two accesses, and whom they wake.
  abbrev pub Gap : Type 0
  Gap = ScheduledIo d → ScheduledIo d × List Waker

  abbrev pub quiet : Gap
  quiet io = (io, [])

module _ (d : Deps) (p : Platform) where
  open d use {Ready, is_empty, ready_and, ready_sub, as_usize, from_usize, register_waker}
  open d use {get, modify}

  -- `(mask - super::platform::hup()).as_usize()`
  unfoldable pub mask_no_hup : Direction → ℕ
  mask_no_hup direction = as_usize (ready_sub (mask d p direction) (hup d p))

  -- `sched.readiness.fetch_and(!mask_no_hup, SeqCst)`, and `mask &` the flags before it
  unfoldable pub take_flags : Direction → ScheduledIo d → Ready × ScheduledIo d
  take_flags direction io = (
    ready_and (mask d p direction) (from_usize io.readiness),
    record io { readiness = bit_and io.readiness (bit_not (mask_no_hup direction)) },
  )

  unfoldable pub some_flags : Ready → Option Ready
  some_flags ready = if is_empty ready then none else some ready

  -- The part of `Inner::poll_ready` under `ready.is_empty() && cx.is_some()`, with what others do
  -- before the waker is registered and before the second `fetch_and`.
  unfoldable pub retry :
      Gap d → Gap d → Waker → Direction → ScheduledIo d → Option Ready × ScheduledIo d × List Waker
  retry before_waker before_retry waker direction io =
      let (io₁, woken₁) = before_waker io in
      let io₂ : ScheduledIo d =
        set_waker d direction (register_waker waker (waker_of d direction io₁)) io₁ in
      let (io₃, woken₂) = before_retry io₂ in
      let (ready, io₄) = take_flags direction io₃ in (some_flags ready, io₄, woken₁ ++ woken₂)

  -- `Inner::poll_ready` on the source that it finds.
  unfoldable pub poll_io :
      Gap d
      → Gap d
      → Option Waker
      → Direction
      → ScheduledIo d
      → Option Ready × ScheduledIo d × List Waker
  poll_io before_waker before_retry cx direction io =
      let (ready, io') = take_flags direction io in
      elim cx [
        | none ↦ (some_flags ready, io', [])
        | some waker ↦
            if is_empty ready
            then retry before_waker before_retry waker direction io'
            else (some ready, io', [])
      ]

  -- `Inner::poll_ready`: indexing the slab panics on a key with no value.
  unfoldable pub tie_poll_ready :
      Gap d
      → Gap d
      → Option Waker
      → Direction
      → Tie
      → World d
      → Outcome (IoResult (Option Ready) × World d)
  tie_poll_ready before_waker before_retry cx direction tie w =
      if tie.token == error_token
      then done (err (other_error "failed to associate with reactor"), w)
      else elim (upgrade d tie.handle w) [
        | none ↦ done (err (other_error "reactor gone"), w)
        | some inner ↦ elim (get tie.token inner.io_dispatch) [
          | none ↦ panics
          | some io ↦
              let step = poll_io before_waker before_retry cx direction in
              done (
                ok (step io).0,
                wake d (step io).2 (
                    put_reactor d tie.handle
                      (record inner {
                        io_dispatch = modify tie.token (λ x. (step x).1) inner.io_dispatch;
                      })
                      w),
              )
        ]
      ]
