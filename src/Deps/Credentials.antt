-- ===== src/Deps/Credentials.antt =====
-- libc and the file descriptors of mio-uds, for the credentials of a peer. Nothing is assumed of them.
use romio.Base.{ℕ, IoError}

-- `libc::ucred`
pub record RawCredentials : Type 0 where
  pub pid : ℕ
  pub uid : ℕ
  pub gid : ℕ

-- What `getsockopt` returns, and leaves in its output arguments.
pub record SockoptReply : Type 0 where
  pub ret : ℕ
  pub ucred : RawCredentials
  pub ucred_size : ℕ

-- A return value is 0 or a number that is not, in place of a signed one.
pub record LibcApi (Os Source : Type 0) : Type 0 where
  pub as_raw_fd : Source → ℕ
  -- `mem::size_of::<u32>()`, `size_of::<usize>()` and `size_of::<ucred>()`
  pub size_of_u32 : ℕ
  pub size_of_usize : ℕ
  pub size_of_ucred : ℕ
  -- `getsockopt(fd, SOL_SOCKET, SO_PEERCRED, &mut ucred, &mut ucred_size)`
  pub getsockopt : ℕ → RawCredentials → ℕ → Os → SockoptReply × Os
  -- `getpeereid(fd, &mut uid, &mut gid)`: the return value, and what it leaves in them
  pub getpeereid : ℕ → Os → (ℕ × ℕ × ℕ) × Os
  -- `io::Error::last_os_error()`
  pub last_os_error : Os → IoError
