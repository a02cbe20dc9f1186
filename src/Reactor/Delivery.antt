-- ===== src/Reactor/Delivery.antt =====
-- src/reactor/mod.rs: an event reaches the source that was registered with its token, and no other.
use romio.Base.{
  ℕ, zero, suc, ◌+◌, ◌*◌, ◌%◌, ◌≤◌, ◌<◌, ◌^◌, ◌≡◌, ◌≢◌, refl, sym, ◌∙◌, true, some, [], ◌++◌, arith,
  ◌==◌, ==_iff, if◌then◌else◌, ok,
}
use romio.Deps.{Deps}
use romio.Reactor.State.{ScheduledIo, Inner, max_sources, token_shift}
use romio.Reactor.Platform.{Platform}
use romio.Reactor.Tokens.{source_token, next_guard}
use romio.Reactor.Tokens.Packing.{IsGuard, token_key-source_token, token_guard-source_token}
use romio.Reactor.Dispatch.{dispatch, dispatch_io, wake_option}
use romio.Reactor.Sources.{add_source, new_io}
use romio.Reactor.Valid.{IsValid}

module _ (d : Deps) (p : Platform) where
  open d use {get, modify, insert, len}

  pub dispatch-source_token :
      (g k : ℕ) (ready : d.Ready) (inner : Inner d) (io : ScheduledIo d)
      → IsGuard g
      → k ≤ max_sources
      → get k inner.io_dispatch ≡ some io
      → dispatch d p (source_token g k) ready inner ≡ (
          if g == io.aba_guard
          then (
            record inner {
              io_dispatch = modify k (λ x. (dispatch_io d p ready x).0) inner.io_dispatch;
            },
            wake_option (dispatch_io d p ready io).1 ++ wake_option (dispatch_io d p ready io).2,
          )
          else (inner, []))
  unfolding dispatch
  dispatch-source_token g k ready inner io v le there = rw (
    dispatch,
    token_key-source_token g k v le,
    there,
    token_guard-source_token g k v le,
    token_key-source_token g k v le,
  )

  -- An event with the token of a live source sets the source's flags as `dispatch` does for it,
  -- wakes the tasks that it takes from it, the reader first, and changes no other source.
  pub dispatch-live :
      (k : ℕ) (ready : d.Ready) (inner : Inner d) (io : ScheduledIo d)
      → IsValid d inner
      → get k inner.io_dispatch ≡ some io
      → let after = dispatch d p (source_token io.aba_guard k) ready inner in
        (get k (after.0).io_dispatch ≡ some (dispatch_io d p ready io).0)
        × (after.1
            ≡ wake_option (dispatch_io d p ready io).1 ++ wake_option (dispatch_io d p ready io).2)
        × ((j : ℕ) → j ≢ k → get j (after.0).io_dispatch ≡ get j inner.io_dispatch)
  dispatch-live k ready inner io v there =
      let (below, entry) = v.entries k io there in
      let same : (io.aba_guard == io.aba_guard) ≡ true = (==_iff _ _).1 refl in
      rw (dispatch-source_token io.aba_guard k ready inner io entry.guard (omega arith) there, same)
        (
          ground (arith, d.get-modify k f inner.io_dispatch k),
          refl,
          λ j ne. ground (arith, d.get-modify k f inner.io_dispatch j),
        )
    where
      f : ScheduledIo d → ScheduledIo d
      f x = (dispatch_io d p ready x).0

  -- An event whose token carries another guard than the source under its key changes nothing and
  -- wakes nobody.
  pub dispatch-stale :
      (g k : ℕ) (ready : d.Ready) (inner : Inner d) (io : ScheduledIo d)
      → IsGuard g
      → k ≤ max_sources
      → get k inner.io_dispatch ≡ some io
      → g ≢ io.aba_guard
      → dispatch d p (source_token g k) ready inner ≡ (inner, [])
  dispatch-stale g k ready inner io v le there ne =
      ground (arith, dispatch-source_token g k ready inner io v le there)

-- The guard `n` registrations later.
abbrev pub later_guard : ℕ → ℕ → ℕ
later_guard zero g = g
later_guard (suc n) g = next_guard (later_guard n g)

later_guard_lem : (n g : ℕ) → IsGuard g → later_guard n g ≡ (g + n * 2 ^ token_shift) % 2 ^ 64
unfolding next_guard
later_guard_lem zero g v = omega arith
later_guard_lem (suc n) g v = omega (arith, later_guard_lem n g v)

later_guard-ne : (n g : ℕ) → IsGuard g → 0 < n → n < 2 ^ 42 → later_guard n g ≢ g
later_guard-ne n g v pos few = omega (arith, later_guard_lem n g v)

module _ (d : Deps) (p : Platform) where
  open d use {get, insert, len}

  -- What a successful `add_source` leaves under its key.
  pub add_source-get :
      (source : d.Source) (inner inner' : Inner d) (os os' : d.Os) (key : ℕ)
      → add_source d source inner os ≡ (ok key, inner', os')
      → get key inner'.io_dispatch ≡ some (new_io d inner.next_aba_guard)
  unfolding add_source
  add_source-get source inner inner' os os' key e = ground (
    arith,
    d.get-insert (new_io d inner.next_aba_guard) inner.io_dispatch
        (insert (new_io d inner.next_aba_guard) inner.io_dispatch).0,
  )

  -- When a key is used again, by a source registered `n` registrations after an earlier one with
  -- guard `g`, a late event with the earlier source's token changes nothing and wakes nobody, for
  -- any `n` from 1 to 2^42 - 1.
  pub reused_key_ignores :
      (source : d.Source) (inner inner' : Inner d) (os os' : d.Os) (key n g : ℕ) (ready : d.Ready)
      → IsGuard g
      → inner.next_aba_guard ≡ later_guard n g
      → 0 < n
      → n < 2 ^ 42
      → IsValid d inner'
      → add_source d source inner os ≡ (ok key, inner', os')
      → dispatch d p (source_token g key) ready inner' ≡ (inner', [])
  reused_key_ignores source inner inner' os os' key n g ready v e pos few valid added =
      let there = add_source-get source inner inner' os os' key added in
      let (below, entry) = valid.entries key _ there in
      dispatch-stale d p g key ready inner' _ v (omega arith) there
        (λ same. later_guard-ne n g v pos few (sym e ∙ sym same))
