-- ===== src/Background/Joined.antt =====
-- src/reactor/background.rs: the drop of a `Background` returns once its thread has stopped.
use romio.Deps.{Deps}
use romio.Reactor.Platform.{Platform}
