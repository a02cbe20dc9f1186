-- ===== src/Uds/Credentials.antt =====
-- src/uds/ucred.rs: the credentials of the process at the other end of a stream.
use romio.Base.{ℕ, ◌&&◌, leb, ◌==◌, if◌then◌else◌, some, IoResult, ok, err, panics}
use romio.Deps.{Deps}
use romio.Deps.Credentials.{LibcApi, SockoptReply}
use romio.PollEvented.State.{PollEvented, Run, ◌>>=◌, get_ref, on_os}

-- `struct UCred`
pub record UCred : Type 0 where
  pub uid : ℕ
  pub gid : ℕ

-- `u32::max_value()`
abbrev pub u32_max : ℕ
u32_max = 4294967295

module _ (d : Deps) (l : LibcApi d.Os d.Source) where
  open d use {Os, Source}

  -- The end of `get_peer_cred` on Linux, with the size that `size_of::<ucred>()` has
  unfoldable pub accept_reply : SockoptReply → Os → IoResult UCred
  accept_reply reply os =
      if reply.ret == 0 && reply.ucred_size == l.size_of_ucred
      then ok (record { uid = reply.ucred.uid; gid = reply.ucred.gid })
      else err (l.last_os_error os)

  unfoldable pub ask_linux : Source → Os → IoResult UCred × Os
  ask_linux io os =
      let (reply, os') =
        l.getsockopt (l.as_raw_fd io) (record { pid = 0; uid = 0; gid = 0 }) l.size_of_ucred os in
      (accept_reply reply os', os')

  -- `impl_linux::get_peer_cred`, with its `assert!`s
  unfoldable pub get_peer_cred : Run (PollEvented d) (IoResult UCred)
  get_peer_cred = do
    io ← get_ref d
    if leb l.size_of_u32 l.size_of_usize && leb l.size_of_ucred u32_max
        then on_os d (ask_linux io)
        else λ s. some panics

  unfoldable pub ask_macos : Source → Os → IoResult UCred × Os
  ask_macos io os =
      let ((ret, uid, gid), os') = l.getpeereid (l.as_raw_fd io) os in
      (if ret == 0 then ok (record { uid = uid; gid = gid }) else err (l.last_os_error os'), os')

  -- `impl_macos::get_peer_cred`
  unfoldable pub get_peer_cred_macos : Run (PollEvented d) (IoResult UCred)
  get_peer_cred_macos = do io ← get_ref d; on_os d (ask_macos io)

  -- `UnixStream::peer_cred`, on Linux
  unfoldable pub peer_cred : Run (PollEvented d) (IoResult UCred)
  peer_cred = get_peer_cred
