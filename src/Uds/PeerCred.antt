-- ===== src/Uds/PeerCred.antt =====
-- src/uds/ucred.rs: what the two implementations return.
use romio.Base.{◌≤◌, ◌≡◌, ◌≢◌, ◌↔◌, arith, some, IoResult, ok, err, done}
use romio.Deps.{Deps}
use romio.Deps.Credentials.{LibcApi, SockoptReply}
use romio.PollEvented.State.{PollEvented, get_ref, on_os}
use romio.Uds.Credentials.{UCred, u32_max, accept_reply, ask_linux, get_peer_cred}

module _ (d : Deps) (l : LibcApi d.Os d.Source) where
  open d use {Os, Source}

  -- The stream with this operating system.
  abbrev after_call : Os → PollEvented d → PollEvented d
  after_call os s = record s {
    cell = record (s.cell) { world = record (s.cell.world) { os = os } };
  }

  abbrev asked : Source → Os → SockoptReply × Os
  asked io = l.getsockopt (l.as_raw_fd io) (record { pid = 0; uid = 0; gid = 0 }) l.size_of_ucred

  -- `getsockopt` succeeded, filled the struct, and these are the ids in it.
  abbrev pub Accepted : SockoptReply → UCred → Type 0
  Accepted reply u =
      (reply.ret ≡ 0)
      × (reply.ucred_size ≡ l.size_of_ucred)
      × (u.uid ≡ reply.ucred.uid)
      × (u.gid ≡ reply.ucred.gid)

  Accepted-ok :
      (reply : SockoptReply) (os : Os) (u : UCred)
      → accept_reply d l reply os ≡ ok u
      → Accepted reply u
  unfolding accept_reply
  Accepted-ok reply os u e =
      (ground (arith, e), ground (arith, e), ground (arith, e), ground (arith, e))

  ok-Accepted :
      (reply : SockoptReply) (os : Os) (u : UCred)
      → Accepted reply u
      → accept_reply d l reply os ≡ ok u
  unfolding accept_reply
  ok-Accepted reply os u (a, b, c, e) = ground (arith, a, b, c, e)

  refused-err :
      (reply : SockoptReply) (os : Os)
      → ((u : UCred) → accept_reply d l reply os ≢ ok u)
      → accept_reply d l reply os ≡ err (l.last_os_error os)
  unfolding accept_reply
  refused-err reply os none_ok =
      ground (arith, none_ok (record { uid = reply.ucred.uid; gid = reply.ucred.gid }))

  -- On Linux the credentials of a peer are returned if and only if `getsockopt` returned 0 and has
  -- written as many bytes as the struct has; they are then what it wrote. Otherwise the error is the
  -- last one of the operating system. Nothing of the stream changes, and the assertions hold whenever a
  -- `u32` is no longer than a `usize` and the size of the struct is a `u32`.
  pub get_peer_cred_lem :
      (source : Source) (s : PollEvented d)
      → s.io ≡ some source
      → l.size_of_u32 ≤ l.size_of_usize
      → l.size_of_ucred ≤ u32_max
      → let (reply, os) = asked source s.cell.world.os in
        (res : IoResult UCred) × (get_peer_cred d l s ≡ some (done (res, after_call os s)))
        × ((u : UCred) → (res ≡ ok u) ↔ Accepted reply u)
        × (((u : UCred) → res ≢ ok u) → res ≡ err (l.last_os_error os))
  unfolding get_peer_cred get_ref on_os ask_linux accept_reply
  get_peer_cred_lem source s held wide fits =
      let (reply, os) = asked source s.cell.world.os in
      (
        accept_reply d l reply os,
        ground (arith, held, wide, fits),
        λ u. (Accepted-ok reply os u, ok-Accepted reply os u),
        refused-err reply os,
      )
