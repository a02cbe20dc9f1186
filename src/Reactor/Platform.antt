-- ===== src/Reactor/Platform.antt =====
-- src/reactor/mod.rs: `mod platform` for Unix and for Windows, and `Direction::mask`.
use romio.Base.{Bool, false}
use romio.Deps.{Deps}
use romio.Reactor.State.{Direction, read, write}

-- `#[cfg(unix)]` or `#[cfg(windows)]`
pub data Platform : Type 0 where
  unix windows : Platform

module _ (d : Deps) where
  open d use {Ready, empty, writable, all, unix_hup, unix_is_hup, ready_or, ready_sub}

  unfoldable pub hup : Platform → Ready
  hup unix = unix_hup
  hup windows = empty

  unfoldable pub is_hup : Platform → Ready → Bool
  is_hup unix r = unix_is_hup r
  is_hup windows r = false

  -- `Direction::mask`
  unfoldable pub mask : Platform → Direction → Ready
  mask p read = ready_sub all writable
  mask p write = ready_or writable (hup p)
