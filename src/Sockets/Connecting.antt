-- ===== src/Sockets/Connecting.antt =====
-- src/tcp/stream.rs and src/uds/stream.rs: what a poll of a connection's future returns once its socket
-- is registered, while other threads dispatch events.
use romio.Base.{
  ◌≡◌, refl, ◌∙◌, arith, inl, inr, ◌⊎◌, Option, none, some, Waker, Poll, ready, pending, IoResult,
  ok, err, IoError, Outcome, done, subst,
}
use romio.Deps.{Deps}
use romio.Reactor.State.{write, ScheduledIo}
use romio.Reactor.Platform.{Platform}
use romio.Reactor.World.{World, upgrade, put_reactor}
use romio.Reactor.Sources.{drop_source, deregister_source}
use romio.Reactor.Registration.Source.{tie_deregister, tie_drop}
use romio.Reactor.Registration.Poll.{Others, deregister}
use romio.Reactor.Registration.Interference.{Calm}
use romio.PollEvented.State.{PollEvented, get_ref, on_os}
use romio.PollEvented.Ready.{poll_write_ready}
use romio.PollEvented.Io.{drop_evented, drop_registration}
use romio.PollEvented.Attached.{Attached}
use romio.PollEvented.Contract.{Live, Hears}
use romio.PollEvented.Polls.{poll-Settles}
use romio.PollEvented.Operations.{called, called-Live}
use romio.Tcp.Stream as Tcp
use romio.Uds.Stream as Unix

module _ (d : Deps) where
  open d use {Source}

  -- The drop of a registered object does not panic.
  drop_evented-Attached :
      (source : Source) (s : PollEvented d) (io : ScheduledIo d)
      → s.io ≡ some source
      → Attached d s.cell io
      → (w : World d) × (drop_evented d s ≡ done w)
  unfolding drop_evented drop_registration deregister tie_deregister tie_drop upgrade put_reactor
      deregister_source drop_source
  drop_evented-Attached source s io held a = (
    put_reactor d a.tie.handle
        (record (a.inner) { io_dispatch = d.remove a.tie.token a.inner.io_dispatch })
        (record (s.cell.world) { os = (deregister_source d source a.inner s.cell.world.os).1 }),
    ground (arith, held, a.tied, a.has_token, a.alive, a.there),
  )

module _ (d : Deps) (p : Platform) where
  open d use {Source}

  -- The outcomes of a poll of a connection's future: a stream that is registered, an error, or `Pending`
  -- with a task that hears of it again.
  abbrev pub Connects :
      {F : Type 0}
      → (PollEvented d → F)
      → Waker
      → Option (Outcome (Poll (IoResult (PollEvented d)) × F))
      → Type 0
  Connects {F} waiting w o =
      ((stream : PollEvented d) × (f : F) × (o ≡ some (done (ready (ok stream), f)))
        × Live d p stream)
      ⊎ (((e : IoError) × (f : F) × (o ≡ some (done (ready (err e), f))))
          ⊎ ((s : PollEvented d) × (o ≡ some (done (pending, waiting s))) × Hears d p w write s))

  fail-Connects :
      (w : Waker) (e : IoError) (source : Source) (s : PollEvented d)
      → s.io ≡ some source
      → Live d p s
      → Connects Tcp.waiting w (Tcp.fail d e s)
  unfolding Tcp.fail
  fail-Connects w e source s held (io, a) =
      let (world, dropped) = drop_evented-Attached d source s io held a in
      inr (inl (e, Tcp.empty world, ground (arith, dropped)))

  tcp_error-Connects :
      (w : Waker) (source : Source) (s : PollEvented d) (res : IoResult (Option IoError))
      → s.io ≡ some source
      → Live d p s
      → (d.take_error source s.cell.world.os).0 ≡ res
      → Connects Tcp.waiting w (Tcp.connected d s)
  unfolding Tcp.connected Tcp.take_error get_ref on_os
  tcp_error-Connects w source s res held live at = by_result res at
    where
      after : PollEvented d
      after = called d p (d.take_error source s.cell.world.os).1 s

      live' : Live d p after
      live' = called-Live d p (d.take_error source s.cell.world.os).1 s live

      by_result :
          (r : IoResult (Option IoError))
          → (d.take_error source s.cell.world.os).0 ≡ r
          → Connects Tcp.waiting w (Tcp.connected d s)
      by_result (err e) at =
          subst (Connects Tcp.waiting w) (ground (arith, held, at))
            (fail-Connects w e source after held live')
      by_result (ok (some e)) at =
          subst (Connects Tcp.waiting w) (ground (arith, held, at))
            (fail-Connects w e source after held live')
      by_result (ok none) at =
          inl (after, Tcp.empty after.cell.world, ground (arith, held, at), live')

  pub tcp-Connects :
      (others : Others d) (calm : Calm d p others) (w : Waker) (source : Source) (s : PollEvented d)
      (io : ScheduledIo d)
      → s.io ≡ some source
      → Attached d s.cell io
      → Connects Tcp.waiting w (Tcp.poll_connect d p 2 others w (Tcp.waiting s))
  unfolding Tcp.poll_connect poll_write_ready
  tcp-Connects others calm w source s io held a =
      let (s', kept, settles) = poll-Settles d p others calm w write source s io held a in
      elim settles [
        | inr (nothing, hears) ↦ inr (inr (s', ground (arith, nothing), hears))
        | inl (flags, some_flags, live) ↦
            subst (Connects Tcp.waiting w) (ground (arith, some_flags)) (
              tcp_error-Connects w source s' (d.take_error source s'.cell.world.os).0 (kept ∙ held)
                live refl)
      ]

  unix_error-Connects :
      (w : Waker) (source : Source) (s : PollEvented d) (res : IoResult (Option IoError))
      → s.io ≡ some source
      → Live d p s
      → (d.take_error source s.cell.world.os).0 ≡ res
      → Connects Unix.waiting w (Unix.connected d s)
  unfolding Unix.connected Unix.take_error get_ref on_os
  unix_error-Connects w source s res held live at = by_result res at
    where
      after : PollEvented d
      after = called d p (d.take_error source s.cell.world.os).1 s

      live' : Live d p after
      live' = called-Live d p (d.take_error source s.cell.world.os).1 s live

      by_result :
          (r : IoResult (Option IoError))
          → (d.take_error source s.cell.world.os).0 ≡ r
          → Connects Unix.waiting w (Unix.connected d s)
      by_result (err e) at = inr (inl (e, Unix.waiting after, ground (arith, held, at)))
      by_result (ok (some e)) at = inr (inl (e, Unix.waiting after, ground (arith, held, at)))
      by_result (ok none) at =
          inl (after, Unix.empty after.cell.world, ground (arith, held, at), live')

  pub unix-Connects :
      (others : Others d) (calm : Calm d p others) (w : Waker) (source : Source) (s : PollEvented d)
      (io : ScheduledIo d)
      → s.io ≡ some source
      → Attached d s.cell io
      → Connects Unix.waiting w (Unix.poll_connect d p 2 others w (Unix.waiting s))
  unfolding Unix.poll_connect poll_write_ready
  unix-Connects others calm w source s io held a =
      let (s', kept, settles) = poll-Settles d p others calm w write source s io held a in
      elim settles [
        | inr (nothing, hears) ↦ inr (inr (s', ground (arith, nothing), hears))
        | inl (flags, some_flags, live) ↦
            subst (Connects Unix.waiting w) (ground (arith, some_flags)) (
              unix_error-Connects w source s' (d.take_error source s'.cell.world.os).0 (kept ∙ held)
                live refl)
      ]
