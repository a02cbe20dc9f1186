-- ===== src/Reactor/Refused.antt =====
-- src/reactor/mod.rs: the entry that a refused `add_source` leaves in the table, over any later history.
use romio.Base.{
  ℕ, ◌+◌, ◌≡◌, ◌≢◌, false, Bool-cases, inl, inr, arith, ◌==◌, Option-cases, List, Waker, subst,
  done, some, IoResult, err, IoError,
}
use romio.Deps.{Deps}
use romio.Deps.Kernel.{PollOpt}
use romio.Reactor.State.{Direction, ScheduledIo, Inner, max_sources}
use romio.Reactor.Platform.{Platform}
use romio.Reactor.Tokens.{source_token, token_key, token_guard}
use romio.Reactor.Dispatch.{dispatch, dispatch_io}
use romio.Reactor.Sources.{add_source, drop_source, register, register_io, new_io, is_idle}
use romio.Reactor.History.{adds, drops, registers, dispatches, polls, Reach, here, later}

module _ (d : Deps) (p : Platform) where
  open d use {get, insert, modify, len, Slab}

  -- What mio is asked to register: the token of the new source.
  abbrev pub asked : d.Source → Inner d → d.Os → IoResult (Unit {0}) × d.Os
  asked source inner os =
      d.poll_register inner.io source
        (source_token inner.next_aba_guard
          (insert (new_io d inner.next_aba_guard) inner.io_dispatch).0)
        d.all PollOpt.edge os

  -- The history never drops the source under this key.
  unfoldable pub Keeps : {start inner : Inner d} → ℕ → Reach d p start inner → Type 0
  Keeps k here = Unit
  Keeps k (later r (adds source os)) = Keeps k r
  Keeps k (later r (drops token e)) = (token ≢ k) × Keeps k r
  Keeps k (later r (registers w token dir e)) = Keeps k r
  Keeps k (later r (dispatches token ready)) = Keeps k r
  Keeps k (later r (polls cx dir token)) = Keeps k r

  abbrev Holds : ℕ → Slab (ScheduledIo d) → Type 0
  Holds k s = (io : ScheduledIo d) × (get k s ≡ some io)

  modify-Holds :
      (k token : ℕ) (f : ScheduledIo d → ScheduledIo d) (s : Slab (ScheduledIo d))
      → Holds k s
      → Holds k (modify token f s)
  modify-Holds k token f s (io, there) = elim (Bool-cases (token == k)) [
    | inl same ↦ (f io, ground (arith, d.get-modify token f s k, there, same))
    | inr other ↦ (io, ground (arith, d.get-modify token f s k, there, other))
  ]

  add_source-Holds :
      (k : ℕ) (source : d.Source) (inner : Inner d) (os : d.Os)
      → Holds k inner.io_dispatch
      → Holds k (add_source d source inner os).1.io_dispatch
  unfolding add_source
  add_source-Holds k source inner os (io, there) =
      let new = new_io d inner.next_aba_guard in
      (
        io,
        ground (
          arith,
          there,
          d.get-insert new inner.io_dispatch k,
          d.insert_vacant new inner.io_dispatch,
        ),
      )

  dispatch-Holds :
      (k token : ℕ) (ready : d.Ready) (inner : Inner d)
      → Holds k inner.io_dispatch
      → Holds k (dispatch d p token ready inner).0.io_dispatch
  unfolding dispatch
  dispatch-Holds k token ready inner held =
      let f = λ (x : ScheduledIo d). (dispatch_io d p ready x).0 in
      elim (Option-cases (get (token_key token) inner.io_dispatch)) [
        | inl free ↦ rw (dispatch, free) held
        | inr (io, there) ↦ elim (Bool-cases (token_guard token == io.aba_guard)) [
          | inl same ↦
              rw (dispatch, there, same) (modify-Holds k (token_key token) f inner.io_dispatch held)
          | inr other ↦ rw (dispatch, there, other) held
        ]
      ]

  register-Holds :
      (k token : ℕ) (w : Waker) (dir : Direction) (inner after : Inner d) (woken : List Waker)
      → register d w token dir inner ≡ done (after, woken)
      → Holds k inner.io_dispatch
      → Holds k after.io_dispatch
  unfolding register
  register-Holds k token w dir inner after woken e held =
      let f = λ (x : ScheduledIo d). (register_io d w dir x).0 in
      elim (Option-cases (get token inner.io_dispatch)) [
        | inl free ↦ absurd (ground (arith, e, free))
        | inr (io, there) ↦
            let same : modify token f inner.io_dispatch ≡ after.io_dispatch =
              ground (arith, e, there) in
            subst (Holds k) same (modify-Holds k token f inner.io_dispatch held)
      ]

  Reach-Holds :
      {start inner : Inner d} (k : ℕ) (r : Reach d p start inner)
      → Keeps k r
      → Holds k start.io_dispatch
      → Holds k inner.io_dispatch
  unfolding Keeps drop_source
  Reach-Holds k here keeps held = held
  Reach-Holds k (later {inner} r (adds source os)) keeps held =
      add_source-Holds k source inner os (Reach-Holds k r keeps held)
  Reach-Holds k (later {inner} r (drops token e)) (other, keeps) held =
      let (io, there) = Reach-Holds k r keeps held in
      (io, ground (arith, e, other, there, d.get-remove token inner.io_dispatch k))
  Reach-Holds k (later {inner} r (registers w token dir e)) keeps held =
      register-Holds k token w dir inner _ _ e (Reach-Holds k r keeps held)
  Reach-Holds k (later {inner} r (dispatches token ready)) keeps held =
      dispatch-Holds k token ready inner (Reach-Holds k r keeps held)
  Reach-Holds k (later {inner} r (polls cx dir token)) keeps held =
      modify-Holds k token _ inner.io_dispatch (Reach-Holds k r keeps held)

  Holds-is_idle : (k : ℕ) (inner : Inner d) → Holds k inner.io_dispatch → is_idle d inner ≡ false
  unfolding is_idle
  Holds-is_idle k inner (io, there) = ground (arith, d.len-remove k inner.io_dispatch io there)

  -- If mio refuses the registration of a source in a table that is not full, `add_source` returns
  -- the error alone, without the key that the slab chose, and leaves one entry more than before. As long
  -- as nobody drops a source with this key, `is_idle` is false after any later history of the reactor.
  pub add_source_refused :
      (source : d.Source) (inner last : Inner d) (os os' : d.Os) (e : IoError)
      → len inner.io_dispatch ≢ max_sources
      → asked source inner os ≡ (err e, os')
      → (r : Reach d p (add_source d source inner os).1 last)
      → Keeps (insert (new_io d inner.next_aba_guard) inner.io_dispatch).0 r
      → ((add_source d source inner os).0 ≡ err e)
        × (len (add_source d source inner os).1.io_dispatch ≡ len inner.io_dispatch + 1)
        × (is_idle d last ≡ false)
  unfolding add_source
  add_source_refused source inner last os os' e room refused r keeps =
      let new = new_io d inner.next_aba_guard in
      let k = (insert new inner.io_dispatch).0 in
      (
        ground arith,
        ground (arith, d.len-insert new inner.io_dispatch),
        Holds-is_idle k last
            (Reach-Holds k r keeps (new, ground (arith, d.get-insert new inner.io_dispatch k))),
      )
