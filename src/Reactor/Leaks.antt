-- ===== src/Reactor/Leaks.antt =====
-- src/reactor/mod.rs: what `add_source` and `drop_source` leave in the table of sources.
use romio.Base.{ℕ, ◌≡◌, arith, ok, err, other_error, done}
use romio.Deps.{Deps}
use romio.Reactor.State.{ScheduledIo, Inner, max_sources}
use romio.Reactor.Tokens.{next_guard}
use romio.Reactor.Sources.{add_source, drop_source, new_io}

module _ (d : Deps) where
  open d use {get, insert, remove, len}

  -- A full table refuses a source: it keeps its entries, and only the guard counter moves.
  pub add_source_full :
      (source : d.Source) (inner : Inner d) (os : d.Os)
      → len inner.io_dispatch ≡ max_sources
      → add_source d source inner os ≡ (
        err (other_error "reactor at max registered I/O resources"),
        record inner { next_aba_guard = next_guard inner.next_aba_guard },
        os,
      )
  unfolding add_source
  add_source_full source inner os full = ground arith

  -- A source that is added and dropped leaves every key as it was, and as many entries.
  pub drop_source-add_source :
      (source : d.Source) (inner inner' : Inner d) (os os' : d.Os) (key : ℕ)
      → add_source d source inner os ≡ (ok key, inner', os')
      → (inner'' : Inner d) × (drop_source d key inner' ≡ done inner'')
        × ((j : ℕ) → get j inner''.io_dispatch ≡ get j inner.io_dispatch)
        × (len inner''.io_dispatch ≡ len inner.io_dispatch)
  unfolding add_source drop_source
  drop_source-add_source source inner inner' os os' key e = (
    record inner' { io_dispatch = remove key inner'.io_dispatch },
    ground (arith, d.get-insert new inner.io_dispatch at),
    λ j. ground (
      arith,
      d.get-remove key inner'.io_dispatch j,
      d.get-insert new inner.io_dispatch j,
      d.insert_vacant new inner.io_dispatch,
    ),
    ground (
      arith,
      d.get-insert new inner.io_dispatch at,
      d.len-insert new inner.io_dispatch,
      d.len-remove key inner'.io_dispatch new,
    ),
  )
    where
      new : ScheduledIo d
      new = new_io d inner.next_aba_guard

      at : ℕ
      at = (insert new inner.io_dispatch).0
