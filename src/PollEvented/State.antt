-- ===== src/PollEvented/State.antt =====
-- src/raw/poll_evented.rs: the data of `PollEvented`, and a monad for its methods.
use romio.Base.{ℕ, Option, none, some, Outcome, done, panics, IoResult, ok, err}
use romio.Deps.{Deps}
use romio.Reactor.State.{Direction, read, write}
use romio.Reactor.World.{World}
use romio.Reactor.Registration.State.{Cell, new}

-- `struct PollEvented` and its `Inner`; the cell holds the registration and the world around it.
pub record PollEvented (d : Deps) : Type 0 where
  pub io : Option d.Source
  pub cell : Cell d
  pub read_readiness : ℕ
  pub write_readiness : ℕ

-- Code that reads and writes a state, may panic, and may run out of fuel (`none`).
abbrev pub Run : Type 0 → Type 0 → Type 0
Run S A = S → Option (Outcome (A × S))

abbrev pub returns : {S A : Type 0} → A → Run S A
returns a s = some (done (a, s))

infixl 5 ◌>>=◌ ◌>>◌
abbrev pub ◌>>=◌ : {S A B : Type 0} → Run S A → (A → Run S B) → Run S B
◌>>=◌ m f s = elim (m s) [ none ↦ none | some panics ↦ some panics | some (done (a, s')) ↦ f a s' ]

abbrev pub ◌>>◌ : {S B : Type 0} → Run S (Unit {0}) → Run S B → Run S B
m >> k = m >>= λ _. k

module _ (d : Deps) where
  open d use {Source, Os}

  -- `PollEvented::new`
  unfoldable pub new_evented : Source → World d → PollEvented d
  new_evented io w = record {
    io = some io;
    cell = record { reg = new; world = w };
    read_readiness = 0;
    write_readiness = 0;
  }

  -- A socket of mio from a call that may fail, in a new `PollEvented`.
  unfoldable pub evented_from :
      (Os → IoResult Source × Os) → World d → IoResult (PollEvented d) × World d
  evented_from make w =
      let (res, os') = make w.os in
      let w' : World d = record w { os = os' } in
      (elim res [ ok io ↦ ok (new_evented io w') | err e ↦ err e ], w')

  -- `get_ref` and `get_mut`: `unwrap` panics on `None`.
  unfoldable pub get_ref : Run (PollEvented d) Source
  get_ref s = elim s.io [ none ↦ some panics | some io ↦ some (done (io, s)) ]

  -- The readiness that is cached for one direction.
  unfoldable pub cached : Direction → PollEvented d → ℕ
  cached read s = s.read_readiness
  cached write s = s.write_readiness

  unfoldable pub store : Direction → ℕ → PollEvented d → PollEvented d
  store read n s = record s { read_readiness = n }
  store write n s = record s { write_readiness = n }

  -- A method of the registration, on the registration of the object.
  unfoldable pub on_cell : {A : Type 0} → Run (Cell d) A → Run (PollEvented d) A
  on_cell m s = elim (m s.cell) [
    | none ↦ none
    | some panics ↦ some panics
    | some (done (a, c)) ↦ some (done (a, record s { cell = c }))
  ]

  -- A call of the operating system.
  unfoldable pub on_os : {A : Type 0} → (Os → A × Os) → Run (PollEvented d) A
  on_os f s =
      let (a, os') = f s.cell.world.os in
      some (
        done
          (a, record s { cell = record (s.cell) { world = record (s.cell.world) { os = os' } } }))
