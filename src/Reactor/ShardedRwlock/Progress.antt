-- ===== src/Reactor/ShardedRwlock/Progress.antt =====
-- src/reactor/sharded_rwlock.rs: writers that lock the shards in one order do not wait for each other
-- for ever.
use romio.Base.{
  ℕ, suc, ◌<◌, ◌≡◌, refl, ◌∙◌, ap, inl, inr, ◌⊎◌, Bool-cases, List, [], ◌∷◌, ◌++◌, arith, ltb, leb,
}
use romio.Deps.Locks.{LockApi}
use romio.Reactor.ShardedRwlock.Machine.{
  RwLock, new, grant_read, drop_read, lock_shard, unlock_shard, Step, reads, drops_guard, begins,
  locks, unlocks, ends, Reach, here, next,
}
use romio.Reactor.ShardedRwlock.Counts.{count, count_above, count_above-middle}
use romio.Reactor.ShardedRwlock.Exclusion.{Reach-Inv}
use romio.Reactor.ShardedRwlock.LastShard.{count_above-anti}

-- A number of the list that none is above.
highest :
    (k : ℕ) (ks : List ℕ)
    → (xs ys : List ℕ) × (top : ℕ) × (k ∷ ks ≡ xs ++ top ∷ ys) × (count_above top (k ∷ ks) ≡ 0)
unfolding count_above
highest k [] = ([], [], k, refl, ground arith)
highest k (j ∷ ks) =
    let (xs, ys, top, split, none_above) = highest j ks in
    elim (Bool-cases (leb top k)) [
      | inl over ↦
          ([], j ∷ ks, k, refl, ground (arith, over, count_above-anti top k (j ∷ ks), none_above))
      | inr under ↦
          (k ∷ xs, ys, top, ap (λ (l : List ℕ). k ∷ l) split, ground (arith, under, none_above))
    ]

module _ (L : LockApi) where
  -- Nobody has locked more than all shards.
  Reach-bounded : {n : ℕ} {c : RwLock L} → Reach L n (new L) c → count_above n c.holders ≡ 0
  unfolding new grant_read drop_read lock_shard unlock_shard count_above
  Reach-bounded here = refl
  Reach-bounded (next r (reads t e)) = Reach-bounded r
  Reach-bounded (next r (drops_guard xs ys k e)) = Reach-bounded r
  Reach-bounded (next r begins) = ground (arith, Reach-bounded r)
  Reach-bounded {n} (next r (locks xs ys k e below granted)) = ground (
    arith,
    Reach-bounded r,
    ap (count_above n) e ∙ count_above-middle n k xs ys,
    count_above-middle n (suc k) xs ys,
  )
  Reach-bounded {n} (next r (unlocks xs ys k e)) = ground (
    arith,
    Reach-bounded r,
    ap (count_above n) e ∙ count_above-middle n (suc k) xs ys,
    count_above-middle n k xs ys,
  )
  Reach-bounded {n} (next r (ends xs ys e)) =
      ground (arith, Reach-bounded r, ap (count_above n) e ∙ count_above-middle n 0 xs ys)

  -- No deadlock: in any history of a lock with at least one shard, when threads are in `write` or have
  -- the write guard and nobody has a read guard, one of them has all the shards, or the next shard of
  -- one of them is free and it goes on.
  pub no_deadlock :
      (n : ℕ) (c : RwLock L) (k : ℕ) (ks : List ℕ)
      → 0 < n
      → Reach L n (new L) c
      → c.guards ≡ []
      → c.holders ≡ k ∷ ks
      → (xs ys : List ℕ) × (top : ℕ) × (c.holders ≡ xs ++ top ∷ ys)
        × ((top ≡ n) ⊎ ((l : L.Lock) × Step L n c (lock_shard L top l (xs ++ suc top ∷ ys) c)))
  unfolding count count_above
  no_deadlock n c k ks pos r unread held =
      let v = Reach-Inv L pos r in
      let (xs, ys, top, split, none_above) = highest k ks in
      let least = ap (count_above top) held ∙ none_above in
      (
        xs,
        ys,
        top,
        held ∙ split,
        elim (Bool-cases (ltb top n)) [
          | inl more ↦
              let below : top < n = ground (arith, more) in
              let (l, granted) =
                L.write-free (c.shards top) (v.reading top ∙ ap (count top) unread)
                  (v.writing top ∙ least) in
              inr (l, locks xs ys top (held ∙ split) below granted)
          | inr all ↦ inl (
              ground (
                arith,
                all,
                Reach-bounded r,
                ap (count_above n) (held ∙ split) ∙ count_above-middle n top xs ys,
              ))
        ],
      )
