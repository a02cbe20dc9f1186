-- ===== src/Reactor/Valid.antt =====
-- src/reactor/mod.rs: what holds of the table of sources at all times.
use romio.Base.{
  ℕ, ◌≤◌, ◌<◌, ◌^◌, ◌≡◌, inl, inr, Bool-cases, Option-cases, false, some, List, subst, arith, ◌==◌,
  Waker, done,
}
use romio.Base.Bits.{usize_bits, bit_or-lt}
use romio.Deps.{Deps}
use romio.Deps.Slabs.{get-insert_cases, get-remove_some, get-modify_cases}
use romio.Reactor.State.{Direction, read, write, ScheduledIo, Inner, max_sources}
use romio.Reactor.Platform.{Platform}
use romio.Reactor.Tokens.{next_guard, token_key, token_guard}
use romio.Reactor.Tokens.Packing.{IsGuard, next_guard-IsGuard}
use romio.Reactor.Dispatch.{dispatch, dispatch_io, set_flags, take_reader, take_writer}
use romio.Reactor.Sources.{
  add_source, drop_source, register, register_io, new_io, wake_io, set_waker,
}

module _ (d : Deps) where
  open d use {get, insert, modify, remove, slots, len}

  pub record IsEntry (io : ScheduledIo d) : Type 0 where
    pub guard : IsGuard io.aba_guard
    pub fits : io.readiness < 2 ^ usize_bits

  -- Guards count registrations, the table has at most `max_sources` slots, and its keys lie below
  -- that limit.
  pub record IsValid (inner : Inner d) : Type 0 where
    pub guard : IsGuard inner.next_aba_guard
    pub few : slots inner.io_dispatch ≤ max_sources
    pub held : len inner.io_dispatch ≤ max_sources
    pub entries :
        (k : ℕ) (io : ScheduledIo d)
        → get k inner.io_dispatch ≡ some io
        → (k < max_sources) × IsEntry io

  -- A write to one entry that keeps entries as they should be.
  pub modify-IsValid :
      (k : ℕ) (f : ScheduledIo d → ScheduledIo d) (inner : Inner d)
      → ((io : ScheduledIo d) → IsEntry io → IsEntry (f io))
      → IsValid inner
      → IsValid (record inner { io_dispatch = modify k f inner.io_dispatch })
  modify-IsValid k f inner keep v = record {
    guard = v.guard;
    few = rw (d.slots-modify k f inner.io_dispatch) v.few;
    held = rw (d.len-modify k f inner.io_dispatch) v.held;
    entries = λ j io e.
        let (a, there, same) = get-modify_cases d.slab_api k f io inner.io_dispatch j e in
        ground (arith, v.entries j a there, keep a);
  }

  pub add_source-IsValid :
      (source : d.Source) (inner : Inner d) (os : d.Os)
      → IsValid inner
      → IsValid (add_source d source inner os).1
  unfolding add_source
  add_source-IsValid source inner os v = elim (Bool-cases (len inner.io_dispatch == max_sources)) [
    | inl full ↦ rw full (counted)
    | inr room ↦ rw room (added room)
  ]
    where
      counted : IsValid (record inner { next_aba_guard = next_guard inner.next_aba_guard })
      counted = record {
        guard = next_guard-IsGuard _ v.guard;
        few = v.few;
        held = v.held;
        entries = v.entries;
      }

      new : ScheduledIo d
      new = new_io d inner.next_aba_guard

      new-IsEntry : IsEntry new
      new-IsEntry = record { guard = v.guard; fits = omega arith }

      added :
          (len inner.io_dispatch == max_sources) ≡ false
          → IsValid (record inner {
            next_aba_guard = next_guard inner.next_aba_guard;
            io_dispatch = (insert new inner.io_dispatch).1;
          })
      added room = record {
        guard = next_guard-IsGuard _ v.guard;
        few = d.slots-insert new inner.io_dispatch max_sources v.few (ground arith);
        held = ground (arith, d.len-insert new inner.io_dispatch);
        entries = λ k io e. elim (get-insert_cases d.slab_api new io inner.io_dispatch k e) [
          | inl (here, same) ↦ ground (
            arith,
            d.insert-slots new inner.io_dispatch,
            d.slots-insert new inner.io_dispatch max_sources,
            new-IsEntry,
          )
          | inr old ↦ v.entries k io old
        ];
      }

  pub drop_source-IsValid :
      (token : ℕ) (inner inner' : Inner d)
      → IsValid inner
      → drop_source d token inner ≡ done inner'
      → IsValid inner'
  unfolding drop_source
  drop_source-IsValid token inner inner' v e = elim (Option-cases (get token inner.io_dispatch)) [
    | inl absent ↦ ground arith
    | inr (io, there) ↦
        let same : record inner { io_dispatch = remove token inner.io_dispatch } ≡ inner' =
          ground arith in
        subst IsValid same (dropped io there)
  ]
    where
      dropped :
          (io : ScheduledIo d)
          → get token inner.io_dispatch ≡ some io
          → IsValid (record inner { io_dispatch = remove token inner.io_dispatch })
      dropped io there = record {
        guard = v.guard;
        few = rw (d.slots-remove token inner.io_dispatch) v.few;
        held = omega (arith, d.len-remove token inner.io_dispatch io there, v.held);
        entries = λ k a e. v.entries k a (get-remove_some d.slab_api token a inner.io_dispatch k e);
      }

  register_io-IsEntry :
      (waker : Waker) (dir : Direction) (io : ScheduledIo d)
      → IsEntry io
      → IsEntry (register_io d waker dir io).0
  unfolding register_io wake_io set_waker
  register_io-IsEntry waker read io v = ground arith
  register_io-IsEntry waker write io v = ground arith

  pub register-IsValid :
      (waker : Waker) (token : ℕ) (dir : Direction) (inner inner' : Inner d) (woken : List Waker)
      → IsValid inner
      → register d waker token dir inner ≡ done (inner', woken)
      → IsValid inner'
  unfolding register
  register-IsValid waker token dir inner inner' woken v e =
      let f : ScheduledIo d → ScheduledIo d = λ x. (register_io d waker dir x).0 in
      let kept = modify-IsValid token f inner (register_io-IsEntry waker dir) v in
      let same : record inner { io_dispatch = modify token f inner.io_dispatch } ≡ inner' =
        ground arith in
      subst IsValid same kept

module _ (d : Deps) (p : Platform) where
  open d use {get, Ready, as_usize}

  dispatch_io-IsEntry :
      (ready : Ready) (io : ScheduledIo d) → IsEntry d io → IsEntry d (dispatch_io d p ready io).0
  unfolding dispatch_io take_writer take_reader set_flags
  dispatch_io-IsEntry ready io v =
      ground
        (arith, bit_or-lt usize_bits io.readiness (as_usize ready) v.fits (d.as_usize_lt ready))

  pub dispatch-IsValid :
      (token : ℕ) (ready : Ready) (inner : Inner d)
      → IsValid d inner
      → IsValid d (dispatch d p token ready inner).0
  unfolding dispatch
  dispatch-IsValid token ready inner v =
      let kept =
        modify-IsValid d (token_key token) (λ x. (dispatch_io d p ready x).0) inner
          (dispatch_io-IsEntry ready) v in
      elim (Option-cases (get (token_key token) inner.io_dispatch)) [
        | inl absent ↦ rw (absent, dispatch) v
        | inr (io, there) ↦ elim (Bool-cases (token_guard token == io.aba_guard)) [
          | inl same ↦ rw (there, dispatch, same) kept
          | inr stale ↦ rw (there, dispatch, stale) v
        ]
      ]
