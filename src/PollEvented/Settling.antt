-- ===== src/PollEvented/Settling.antt =====
-- src/raw/poll_evented.rs, `poll_read_ready` and `poll_write_ready` while other threads dispatch
-- events: each poll keeps the contract.
use romio.Base.{
  ℕ, suc, ◌≡◌, refl, false, Bool-cases, arith, inl, inr, ◌++◌, Option, none, some, Waker, ready,
  pending, ok, done, bit_or, if◌then◌else◌, Option-cases, subst,
}
use romio.Deps.{Deps}
use romio.Reactor.State.{Direction, ScheduledIo}
use romio.Reactor.Platform.{Platform}
use romio.Reactor.Woken.{Woken-append_right}
use romio.Reactor.Registration.State.{Cell}
use romio.Reactor.Registration.Poll.{Others, poll_direction_ready, to_poll}
use romio.Reactor.Registration.Interference.{Calm}
use romio.Reactor.Registration.Disturbed.{disturbed, disturbed-arms}
use romio.PollEvented.State.{PollEvented, cached, store, on_cell}
use romio.PollEvented.Ready.{flag, wanted, drain_loop, refresh, poll_registered}
use romio.PollEvented.Attached.{Attached, polled, answer, second-answer, poll_ready-Attached}
use romio.PollEvented.Contract.{
  Hears, Live, Settles, with_flags, with_flags-ne, store-io, store-Live,
}

module _ (d : Deps) (p : Platform) (others : Others d) (calm : Calm d p others) where
  -- What a round of the loop gets from the registration.
  abbrev Round : Waker → Direction → PollEvented d → ScheduledIo d → Type 0
  Round w dir s io =
      (c : Cell d) × (on_cell d (poll_direction_ready d p others w dir) s
        ≡ some (done (to_poll d p (ok (answer d p others (some w) dir io)), record s { cell = c })))
      × Attached d c (polled d p others (some w) dir io)
      × (c.world.woken ≡ s.cell.world.woken ++ (disturbed d p others (some w) dir io).2)

  pub one-Round :
      (w : Waker) (dir : Direction) (s : PollEvented d) (io : ScheduledIo d)
      → Attached d s.cell io
      → Round w dir s io
  unfolding on_cell poll_direction_ready
  one-Round w dir s io a =
      let (c, asked, still, woken) = poll_ready-Attached d p others calm (some w) dir s.cell io a in
      (c, ground (arith, asked), still, woken)

  -- With nothing for the direction, the loop ends and the task hears of the object again.
  drain_loop-none :
      (fuel : ℕ) (w : Waker) (dir : Direction) (seen : ℕ) (ret : d.Ready) (s : PollEvented d)
      (io : ScheduledIo d)
      → Attached d s.cell io
      → answer d p others (some w) dir io ≡ none
      → (s' : PollEvented d) × (s'.io ≡ s.io)
        × (drain_loop d p (suc fuel) others w dir seen ret s ≡ some (done (pending, s')))
        × Hears d p w dir s'
  unfolding drain_loop to_poll
  drain_loop-none fuel w dir seen ret s io a nothing =
      let (c, asked, still, woken) = one-Round w dir s io a in
      (
        record s { cell = c },
        refl,
        ground (arith, asked, nothing),
        (
          (polled d p others (some w) dir io, still),
          elim (disturbed-arms d p others calm w dir io nothing) [
            | inl waits ↦ inl (polled d p others (some w) dir io, still, waits)
            | inr by_others ↦ inr (rw woken (Woken-append_right w s.cell.world.woken _ by_others))
          ],
        ),
      )

  pub drain_loop-some :
      (fuel : ℕ) (w : Waker) (dir : Direction) (seen : ℕ) (ret r : d.Ready) (s : PollEvented d)
      (io : ScheduledIo d)
      → Attached d s.cell io
      → answer d p others (some w) dir io ≡ some r
      → (c : Cell d) × Attached d c (polled d p others (some w) dir io)
        × (drain_loop d p (suc fuel) others w dir seen ret s ≡ (
            let s' = store d dir (bit_or seen (d.as_usize r)) (record s { cell = c }) in
            if d.is_empty (with_flags d p dir ret r)
            then drain_loop d p fuel others w dir
                (bit_or seen (d.as_usize r))
                (with_flags d p dir ret r)
                s'
            else some (done (ready (ok (with_flags d p dir ret r)), s'))))
  unfolding drain_loop to_poll
  drain_loop-some fuel w dir seen ret r s io a some_r =
      let (c, asked, still, woken) = one-Round w dir s io a in
      (c, still, ground (arith, asked, some_r))

  -- A round whose flags, if any, are wanted is the last.
  second-Settles :
      (w : Waker) (dir : Direction) (seen : ℕ) (ret : d.Ready) (s : PollEvented d)
      (io : ScheduledIo d)
      → Attached d s.cell io
      → ((r : d.Ready)
          → answer d p others (some w) dir io ≡ some r
          → d.is_empty (d.ready_and r (wanted d p dir)) ≡ false)
      → Settles d p s.io w dir (drain_loop d p 1 others w dir seen ret s)
  second-Settles w dir seen ret s io a some_wanted =
      elim (Option-cases (answer d p others (some w) dir io)) [
        | inl nothing ↦
            let (s', kept, loop, hears) = drain_loop-none 0 w dir seen ret s io a nothing in
            (s', kept, inr (loop, hears))
        | inr (r, some_r) ↦
            let (c, still, loop) = drain_loop-some 0 w dir seen ret r s io a some_r in
            let ne = with_flags-ne d p dir ret r (some_wanted r some_r) in
            (
              store d dir (bit_or seen (d.as_usize r)) (record s { cell = c }),
              store-io d p dir _ (record s { cell = c }),
              inl (
                with_flags d p dir ret r,
                ground (arith, loop, ne),
                (
                  _,
                  store-Live d p dir _ (record s { cell = c }) (polled d p others (some w) dir io)
                      still,
                ),
              ),
            )
      ]

  drain_loop-Settles :
      (w : Waker) (dir : Direction) (seen : ℕ) (ret : d.Ready) (s : PollEvented d)
      (io : ScheduledIo d)
      → Attached d s.cell io
      → Settles d p s.io w dir (drain_loop d p 2 others w dir seen ret s)
  drain_loop-Settles w dir seen ret s io a =
      elim (Option-cases (answer d p others (some w) dir io)) [
        | inl nothing ↦
            let (s', kept, loop, hears) = drain_loop-none 1 w dir seen ret s io a nothing in
            (s', kept, inr (loop, hears))
        | inr (r, some_r) ↦
            let (c, still, loop) = drain_loop-some 1 w dir seen ret r s io a some_r in
            let s' = store d dir (bit_or seen (d.as_usize r)) (record s { cell = c }) in
            let kept' : s'.io ≡ s.io = store-io d p dir _ (record s { cell = c }) in
            let still' =
              store-Live d p dir _ (record s { cell = c }) (polled d p others (some w) dir io)
                still in
            elim (Bool-cases (d.is_empty (with_flags d p dir ret r))) [
              | inr flags ↦ (
                s',
                kept',
                inl (with_flags d p dir ret r, ground (arith, loop, flags), (_, still')),
              )
              | inl dry ↦
                  let io' = polled d p others (some w) dir io in
                  subst (Settles d p s.io w dir) (ground (arith, loop, dry)) (
                    subst
                      (λ (held : Option d.Source). Settles d p held w dir (
                        drain_loop d p 1 others w dir (bit_or seen (d.as_usize r))
                          (with_flags d p dir ret r) s'))
                      kept'
                      (second-Settles w dir (bit_or seen (d.as_usize r)) (with_flags d p dir ret r)
                        s' io' still' (λ r'. second-answer d p others calm w dir io r' a.fits)))
            ]
      ]

  refresh-ready :
      (w : Waker) (dir : Direction) (seen : ℕ) (s : PollEvented d) (io : ScheduledIo d)
      → Attached d s.cell io
      → (flags : d.Ready) × (s' : PollEvented d) × (s'.io ≡ s.io)
        × Live d p s'
        × (refresh d p others dir seen s ≡ some (done (ready (ok flags), s')))
  unfolding refresh on_cell
  refresh-ready w dir seen s io a =
      let (c, asked, still, woken) = poll_ready-Attached d p others calm none dir s.cell io a in
      elim (Option-cases (answer d p others none dir io)) [
        | inl nothing ↦ (
          d.from_usize seen,
          record s { cell = c },
          refl,
          (_, still),
          ground (arith, asked, nothing),
        )
        | inr (r, some_r) ↦ (
          d.from_usize (bit_or seen (d.as_usize r)),
          store d dir (bit_or seen (d.as_usize r)) (record s { cell = c }),
          store-io d p dir _ (record s { cell = c }),
          (_, store-Live d p dir _ (record s { cell = c }) _ still),
          ground (arith, asked, some_r),
        )
      ]

  pub poll_registered-Settles :
      (w : Waker) (dir : Direction) (s : PollEvented d) (io : ScheduledIo d)
      → Attached d s.cell io
      → Settles d p s.io w dir (poll_registered d p 2 others w dir s)
  unfolding poll_registered
  poll_registered-Settles w dir s io a =
      elim (Bool-cases (d.is_empty (d.ready_and (d.from_usize (cached d dir s)) (flag d p dir)))) [
        | inl dry ↦ subst (Settles d p s.io w dir) (ground (arith, dry)) (
            drain_loop-Settles w dir (cached d dir s)
              (d.ready_and (d.from_usize (cached d dir s)) (flag d p dir)) s io a)
        | inr flags ↦
            let (r, s', kept, live, e) = refresh-ready w dir (cached d dir s) s io a in
            (s', kept, inl (r, ground (arith, flags, e), live))
      ]
