-- ===== src/PollEvented/Lifetime.antt =====
-- src/raw/poll_evented.rs: an object that registers and is dropped leaves its reactor's table as it was.
use romio.Base.{ℕ, ◌<◌, ◌≡◌, ◌∙◌, true, some, arith, ok, done}
use romio.Deps.{Deps}
use romio.Reactor.State.{Inner, max_sources}
use romio.Reactor.Handle.{try_current}
use romio.Reactor.World.{World, update, upgrade, put_reactor}
use romio.Reactor.Sources.{add_source, drop_source, deregister_source}
use romio.Reactor.Leaks.{drop_source-add_source}
use romio.Reactor.Registration.State.{Cell, init_state}
use romio.Reactor.Registration.Source.{tie_deregister, tie_drop}
use romio.Reactor.Registration.Poll.{alone, register, deregister}
use romio.Reactor.Registration.First.{register_first, registered}
use romio.PollEvented.State.{PollEvented}
use romio.PollEvented.Io.{drop_evented, drop_registration}

module _ (d : Deps) where
  open d use {get, len}

  abbrev pub holder : d.Source → ℕ → ℕ → Cell d → PollEvented d
  holder source r w c = record {
    io = some source;
    cell = c;
    read_readiness = r;
    write_readiness = w;
  }

  pub registered-ok :
      (source : d.Source) (handle key : ℕ) (inner inner' : Inner d) (os' : d.Os) (c : Cell d)
      → add_source d source inner c.world.os ≡ (ok key, inner', os')
      → registered d source handle inner c ≡ record {
        reg = record { inner = some (record { handle = handle; token = key }); state = 2 };
        world = record (c.world) {
          os = os';
          reactors = update c.world.reactors handle (some inner');
        };
      }
  registered-ok source handle key inner inner' os' c added = ground (arith, added)

  -- What the drop of a registered object does, in a world where its reactor is there.
  drop-registered :
      (source : d.Source) (handle key r w : ℕ) (inner inner' : Inner d) (world : World d)
      → key < max_sources
      → world.reactors handle ≡ some inner
      → drop_source d key inner ≡ done inner'
      → (world' : World d) × (drop_evented d (
            holder source r w (record {
              reg = record { inner = some (record { handle = handle; token = key }); state = 2 };
              world = world;
            }))
          ≡ done world')
        × (world'.reactors handle ≡ some inner')
  unfolding drop_evented drop_registration deregister tie_deregister tie_drop upgrade put_reactor
      deregister_source
  drop-registered source handle key r w inner inner' world small there dropped = (
    record world {
      os = (deregister_source d source inner world.os).1;
      reactors = update world.reactors handle (some inner');
    },
    ground arith,
    ground arith,
  )

  -- An object whose first registration succeeds with a live reactor, and that is dropped with nobody
  -- else at work, leaves every key of the reactor's table as it was, and as many entries.
  pub drop_evented-register :
      (source : d.Source) (handle key r w : ℕ) (inner inner' : Inner d) (os' : d.Os) (c : Cell d)
      (before : World d)
      → c.reg.state ≡ init_state
      → try_current d (λ v. v) true c.world ≡ done (ok handle, before)
      → before.reactors handle ≡ some inner
      → add_source d source inner before.os ≡ (ok key, inner', os')
      → key < max_sources
      → (c' : Cell d) × (inner'' : Inner d) × (world : World d) × (register d (alone d) source c
          ≡ some (done (ok true, c')))
        × (drop_evented d (holder source r w c') ≡ done world)
        × (world.reactors handle ≡ some inner'')
        × ((j : ℕ) → get j inner''.io_dispatch ≡ get j inner.io_dispatch)
        × (len inner''.io_dispatch ≡ len inner.io_dispatch)
  drop_evented-register source handle key r w inner inner' os' c before init current alive added
        small =
      let (inner'', dropped, same, many) =
        drop_source-add_source d source inner inner' before.os os' key added in
      let after : World d = record before {
        os = os';
        reactors = update before.reactors handle (some inner');
      } in
      let (world, gone, left) =
        drop-registered source handle key r w inner' inner'' after small (ground arith) dropped in
      (
        _,
        inner'',
        world,
        register_first d source handle inner c before init current alive
            ∙ ground (
              arith,
              added,
              registered-ok source handle key inner inner' os' (record c { world = before }) added,
            ),
        gone,
        left,
        same,
        many,
      )
