-- ===== src/Reactor/History.antt =====
-- src/reactor/mod.rs: the table of sources over any history of the reactor's operations.
use romio.Base.{
  ℕ, suc, ◌*◌, ◌%◌, ◌^◌, ◌≡◌, ◌≢◌, arith, Option, none, some, List, Waker, ok, done, Bool-cases,
  inl, inr,
}
use romio.Base.Bits.{usize_bits, bit_and-lt}
use romio.Deps.{Deps}
use romio.Reactor.State.{Direction, read, write, ScheduledIo, Inner, max_sources, token_wakeup}
use romio.Reactor.Platform.{Platform}
use romio.Reactor.Tokens.{source_token, next_guard}
use romio.Reactor.Tokens.Packing.{zero-IsGuard, source_token-ne-wakeup}
use romio.Reactor.Dispatch.{dispatch}
use romio.Reactor.Sources.{add_source, drop_source, register, new_io, set_waker}
use romio.Reactor.Turn
use romio.Reactor.Valid.{
  IsEntry, IsValid, modify-IsValid, add_source-IsValid, drop_source-IsValid, register-IsValid,
  dispatch-IsValid,
}
use romio.Reactor.Registration.Source.{poll_io, quiet, take_flags, retry}

module _ (d : Deps) (p : Platform) where
  open d use {get, modify, insert, len}

  -- `Inner::poll_ready` of a registration with this token, as it leaves the table.
  abbrev pub polled : Option Waker → Direction → ℕ → Inner d → Inner d
  polled cx dir token inner = record inner {
    io_dispatch =
        modify token (λ io. (poll_io d p (quiet d) (quiet d) cx dir io).1) inner.io_dispatch;
  }

  -- One operation on the table, with any source, task, event, operating system or result.
  pub data Step (inner : Inner d) : Inner d → Type 0 where
    adds : (source : d.Source) (os : d.Os) → Step inner (add_source d source inner os).1
    drops :
        {after : Inner d} (token : ℕ) → drop_source d token inner ≡ done after → Step inner after
    registers :
        {after : Inner d} {woken : List Waker} (w : Waker) (token : ℕ) (dir : Direction)
        → register d w token dir inner ≡ done (after, woken)
        → Step inner after
    dispatches : (token : ℕ) (ready : d.Ready) → Step inner (dispatch d p token ready inner).0
    polls :
        (cx : Option Waker) (dir : Direction) (token : ℕ) → Step inner (polled cx dir token inner)

  pub data Reach (start : Inner d) : Inner d → Type 0 where
    here : Reach start start
    later : {inner after : Inner d} → Reach start inner → Step inner after → Reach start after

  take_flags-IsEntry :
      (dir : Direction) (io : ScheduledIo d) → IsEntry d io → IsEntry d (take_flags d p dir io).1
  unfolding take_flags
  take_flags-IsEntry dir io v = record {
    guard = v.guard;
    fits = bit_and-lt usize_bits io.readiness _ v.fits;
  }

  set_waker-IsEntry :
      (dir : Direction) (x : d.AtomicWaker) (io : ScheduledIo d)
      → IsEntry d io
      → IsEntry d (set_waker d dir x io)
  unfolding set_waker
  set_waker-IsEntry read x io v = record { guard = v.guard; fits = v.fits }
  set_waker-IsEntry write x io v = record { guard = v.guard; fits = v.fits }

  retry-IsEntry :
      (w : Waker) (dir : Direction) (io : ScheduledIo d)
      → IsEntry d io
      → IsEntry d (retry d p (quiet d) (quiet d) w dir io).1
  unfolding retry
  retry-IsEntry w dir io v = take_flags-IsEntry dir _ (set_waker-IsEntry dir _ io v)

  poll_io-IsEntry :
      (cx : Option Waker) (dir : Direction) (io : ScheduledIo d)
      → IsEntry d io
      → IsEntry d (poll_io d p (quiet d) (quiet d) cx dir io).1
  unfolding poll_io
  poll_io-IsEntry none dir io v = take_flags-IsEntry dir io v
  poll_io-IsEntry (some w) dir io v = elim (Bool-cases (d.is_empty (take_flags d p dir io).0)) [
    | inl nothing ↦ rw nothing (retry-IsEntry w dir _ (take_flags-IsEntry dir io v))
    | inr flags ↦ rw flags (take_flags-IsEntry dir io v)
  ]

  Step-IsValid : {inner after : Inner d} → Step inner after → IsValid d inner → IsValid d after
  Step-IsValid {inner} (adds source os) v = add_source-IsValid d source inner os v
  Step-IsValid {inner} (drops token e) v = drop_source-IsValid d token inner _ v e
  Step-IsValid {inner} (registers w token dir e) v = register-IsValid d w token dir inner _ _ v e
  Step-IsValid {inner} (dispatches token ready) v = dispatch-IsValid d p token ready inner v
  Step-IsValid {inner} (polls cx dir token) v =
      modify-IsValid d token _ inner (poll_io-IsEntry cx dir) v

  Reach-IsValid : {start inner : Inner d} → IsValid d start → Reach start inner → IsValid d inner
  Reach-IsValid v here = v
  Reach-IsValid v (later r st) = Step-IsValid st (Reach-IsValid v r)

  new_starts_empty :
      (os os' : d.Os) (start : Inner d)
      → Turn.new d os ≡ (ok start, os')
      → (start.next_aba_guard ≡ 0) × (start.io_dispatch ≡ d.empty_slab)
  unfolding Turn.new
  new_starts_empty os os' start e = (ground arith, ground arith)

  pub new-IsValid :
      (os os' : d.Os) (start : Inner d) → Turn.new d os ≡ (ok start, os') → IsValid d start
  new-IsValid os os' start e =
      let (guard, nothing) = new_starts_empty os os' start e in
      record {
        guard = rw guard zero-IsGuard;
        few = rw (nothing, d.slots-empty) (omega arith);
        held = rw (nothing, d.len-empty) (omega arith);
        entries = λ k io found.
            let absent : get k start.io_dispatch ≡ none = rw nothing (d.get-empty k) in
            ground (arith, absent, found);
      }

  -- How often the history adds a source.
  unfoldable pub additions : {start inner : Inner d} → Reach start inner → ℕ
  additions here = 0
  additions (later r (adds source os)) = suc (additions r)
  additions (later r (drops token e)) = additions r
  additions (later r (registers w token dir e)) = additions r
  additions (later r (dispatches token ready)) = additions r
  additions (later r (polls cx dir token)) = additions r

  add_source-guard :
      (source : d.Source) (inner : Inner d) (os : d.Os)
      → (add_source d source inner os).1.next_aba_guard ≡ next_guard inner.next_aba_guard
  unfolding add_source
  add_source-guard source inner os = ground arith

  next_guard_mod : (n : ℕ) → next_guard ((n * 2 ^ 22) % 2 ^ 64) ≡ (suc n * 2 ^ 22) % 2 ^ 64
  unfolding next_guard
  next_guard_mod n = omega arith

  Reach-guard :
      {start inner : Inner d} (r : Reach start inner)
      → start.next_aba_guard ≡ 0
      → inner.next_aba_guard ≡ (additions r * 2 ^ 22) % 2 ^ 64
  unfolding additions drop_source register dispatch
  Reach-guard here e = e
  Reach-guard (later {inner} r (adds source os)) e =
      rw (add_source-guard source inner os, Reach-guard r e) (next_guard_mod (additions r))
  Reach-guard (later {inner} r (drops token removed)) e = ground (arith, removed, Reach-guard r e)
  Reach-guard (later {inner} r (registers w token dir served)) e =
      ground (arith, served, Reach-guard r e)
  Reach-guard (later {inner} r (dispatches token ready)) e = ground (arith, Reach-guard r e)
  Reach-guard (later {inner} r (polls cx dir token)) e = Reach-guard r e

  -- From a new reactor on, after any history of its operations, the table has at most `max_sources`
  -- entries, each under a key below `max_sources`, with a guard that is a multiple of `2 ^ 22` below
  -- `2 ^ 64` and readiness that fits a word; and the counter of guards stands at `2 ^ 22` times the
  -- number of calls of `add_source` so far, modulo `2 ^ 64`.
  pub history-IsValid :
      (os os' : d.Os) (start inner : Inner d)
      → Turn.new d os ≡ (ok start, os')
      → (r : Reach start inner)
      → IsValid d inner × (inner.next_aba_guard ≡ (additions r * 2 ^ 22) % 2 ^ 64)
  history-IsValid os os' start inner made r = (
    Reach-IsValid (new-IsValid os os' start made) r,
    Reach-guard r (new_starts_empty os os' start made).0,
  )

  -- After any history, the token under which a source is registered with mio is not the token of
  -- the reactor's own wake-up, provided the table is not full.
  pub history-ne-wakeup :
      (os os' : d.Os) (start inner : Inner d)
      → Turn.new d os ≡ (ok start, os')
      → Reach start inner
      → len inner.io_dispatch ≢ max_sources
      → source_token inner.next_aba_guard
          (insert (new_io d inner.next_aba_guard) inner.io_dispatch).0
        ≢ token_wakeup
  history-ne-wakeup os os' start inner made r room =
      let v = (history-IsValid os os' start inner made r).0 in
      let new = new_io d inner.next_aba_guard in
      source_token-ne-wakeup inner.next_aba_guard (insert new inner.io_dispatch).0 v.guard (
        omega (
          arith,
          d.insert-slots new inner.io_dispatch,
          d.slots-insert new inner.io_dispatch max_sources v.few (omega (arith, v.held)),
        ))
