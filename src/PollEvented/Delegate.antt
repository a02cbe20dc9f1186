-- ===== src/PollEvented/Delegate.antt =====
-- `self.io.get_ref().call(..)`: a call of the object of a `PollEvented`.
use romio.Base.{IoResult}
use romio.Deps.{Deps}
use romio.PollEvented.State.{PollEvented, Run, ◌>>=◌, get_ref, on_os}

module _ (d : Deps) where
  unfoldable pub delegate :
      {A : Type 0} → (d.Source → d.Os → IoResult A × d.Os) → Run (PollEvented d) (IoResult A)
  delegate call = do io ← get_ref d; on_os d (call io)
