-- ===== src/Sockets/Accepting.antt =====
-- src/tcp/listener.rs, src/udp.rs and src/uds: operations that take a result apart by `match`, and the
-- streams of accepted connections, on a registered socket while other threads
-- dispatch events.
use romio.Base.{
  IoResult-cases, ◌≡◌, refl, Bool-cases, arith, inl, inr, ◌⊎◌, Option, none, some, Waker, Poll,
  ready, pending, IoResult, ok, err, Outcome, done, ap,
}
use romio.Deps.{Deps}
use romio.Reactor.State.{Direction, read, ScheduledIo}
use romio.Reactor.Platform.{Platform}
use romio.Reactor.Registration.Poll.{Others}
use romio.Reactor.Registration.Interference.{Calm}
use romio.PollEvented.State.{PollEvented, Run, returns, ◌>>=◌, on_os}
use romio.PollEvented.Ready.{poll_read_ready}
use romio.PollEvented.Io.{is_block, is_wouldblock}
use romio.PollEvented.Match.{block, match_op}
use romio.PollEvented.Blocking.{match_op-poll_op}
use romio.PollEvented.Attached.{Attached}
use romio.PollEvented.Contract.{Live, Hears}
use romio.PollEvented.Operations.{
  Answers, clear_ready-Hears, called, called-Live, attempt-Answers, poll_op-Answers,
}
use romio.Uds.Listener as UnixListener

module _ (d : Deps) (p : Platform) (others : Others d) (calm : Calm d p others) where
  open d use {Os, Source}

  pub match_op-Answers :
      {A : Type 0} (w : Waker) (dir : Direction) (op : Source → Os → IoResult A × Os)
      (source : Source) (s : PollEvented d) (io : ScheduledIo d)
      → s.io ≡ some source
      → Attached d s.cell io
      → Answers d p w dir (match_op d p 2 others w dir op s)
  match_op-Answers w dir op source s io held a =
      rw (ap (λ f. f s) (match_op-poll_op d p 2 others w dir op))
        (poll_op-Answers d p others calm w dir op source s io held a)

  block-Answers :
      {A : Type 0} (w : Waker) (dir : Direction) (source : Source) (s : PollEvented d)
      → s.io ≡ some source
      → Live d p s
      → Answers d p {A = A} w dir (block d p 2 others w dir s)
  unfolding block
  block-Answers w dir source s held live =
      let (s', cleared, hears) = clear_ready-Hears d p others calm w dir source s held live in
      (s', inr (ground (arith, cleared), hears))

  pub accepts-Answers :
      (w : Waker) (source : Source) (r : IoResult (Option (d.StdSocket × d.UnixAddr)))
      (s : PollEvented d)
      → s.io ≡ some source
      → Live d p s
      → Answers d p w read (UnixListener.accepts d p 2 others w r s)
  unfolding UnixListener.accepts is_wouldblock
  accepts-Answers w source (ok (some accepted)) s held live =
      (s, inl (ok accepted, refl, refl, live))
  accepts-Answers w source (ok none) s held live = block-Answers w read source s held live
  accepts-Answers w source (err e) s held live = elim (Bool-cases (is_block e.kind)) [
    | inl blocks ↦ rw blocks (block-Answers w read source s held live)
    | inr fine ↦ (s, inl (err e, ground (arith, fine), fine, live))
  ]

  pub unix_accept-Answers :
      (w : Waker) (source : Source) (s : PollEvented d) (io : ScheduledIo d)
      → s.io ≡ some source
      → Attached d s.cell io
      → Answers d p w read (UnixListener.poll_accept_std d p 2 others w s)
  unfolding UnixListener.poll_accept_std poll_read_ready
  unix_accept-Answers w source s io held a =
      attempt-Answers d p others calm w read d.unix_accept_std (UnixListener.accepts d p 2 others w)
        source s io (accepts-Answers w source) held a

module _ (d : Deps) (p : Platform) where
  open d use {Os, Source}

  -- The outcomes of a stream of connections: an item, or `Pending` with a task that hears of it again. The
  -- listener is registered with a live reactor.
  abbrev pub Streams :
      {A : Type 0} → Waker → Option (Outcome (Poll (Option A) × PollEvented d)) → Type 0
  Streams {A} w o =
      (s : PollEvented d) × (((a : A) × (o ≡ some (done (ready (some a), s))) × Live d p s)
        ⊎ ((o ≡ some (done (pending, s))) × Hears d p w read s))

  -- `poll_next` of both listeners, over their `accept_std` and `from_stream`.
  abbrev next_connection :
      {Addr : Type 0}
      → Run (PollEvented d) (Poll (IoResult (d.StdSocket × Addr)))
      → (d.StdSocket → Os → IoResult Source × Os)
      → Run (PollEvented d) (Poll (Option (IoResult Source)))
  next_connection {Addr} accept from_stream = do
    accepted ← (do
      res ← accept
      elim res as (λ _. Run (PollEvented d) (Poll (IoResult (Source × Addr)))) [
        | pending ↦ returns pending
        | ready (err e) ↦ returns (ready (err e))
        | ready (ok (io, addr)) ↦ do
          made ← on_os d (from_stream io)
          elim made [
            | ok stream ↦ returns (ready (ok (stream, addr)))
            | err e ↦ returns (ready (err e))
          ]
      ])
    elim accepted [
      | pending ↦ returns pending
      | ready (err e) ↦ returns (ready (some (err e)))
      | ready (ok (stream, addr)) ↦ returns (ready (some (ok stream)))
    ]

  pub next_connection-Streams :
      {Addr : Type 0} (w : Waker)
      (accept : Run (PollEvented d) (Poll (IoResult (d.StdSocket × Addr))))
      (from_stream : d.StdSocket → Os → IoResult Source × Os) (s : PollEvented d)
      → Answers d p w read (accept s)
      → Streams w (next_connection accept from_stream s)
  unfolding on_os
  next_connection-Streams w accept from_stream s (s', inr (nothing, hears)) =
      (s', inr (ground (arith, nothing), hears))
  next_connection-Streams w accept from_stream s (s', inl (err e, failed, fine, live)) =
      (s', inl (err e, ground (arith, failed), live))
  next_connection-Streams w accept from_stream s
        (s', inl (ok (socket, addr), accepted, fine, live)) =
      let (res, os) = from_stream socket s'.cell.world.os in
      elim (IoResult-cases res) [
        | inl (stream, made) ↦ (
          called d p os s',
          inl (ok stream, ground (arith, accepted, made), called-Live d p os s' live),
        )
        | inr (e, failed) ↦ (
          called d p os s',
          inl (err e, ground (arith, accepted, failed), called-Live d p os s' live),
        )
      ]
