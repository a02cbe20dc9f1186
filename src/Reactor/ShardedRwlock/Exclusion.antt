-- ===== src/Reactor/ShardedRwlock/Exclusion.antt =====
-- src/reactor/sharded_rwlock.rs: a writer that has locked every shard is alone.
use romio.Base.{
  ℕ, suc, ◌+◌, ◌-◌, ◌<◌, ◌≡◌, refl, some, List, [], ◌∷◌, ◌++◌, arith, ltb, ◌==◌, if◌then◌else◌, ap,
  ◌∙◌,
}
use romio.Deps.Locks.{LockApi}
use romio.Reactor.ShardedRwlock.Machine.{
  RwLock, shard_index, new, grant_read, drop_read, lock_shard, unlock_shard, Step, reads,
  drops_guard, begins, locks, unlocks, ends, Reach, here, next,
}
use romio.Reactor.ShardedRwlock.Counts.{
  count, count_above, count-middle, count_above-middle, bit_and_le,
}

pub shard_index-lt : (t n : ℕ) → 0 < n → shard_index t n < n
unfolding shard_index
shard_index-lt t n pos = omega (arith, bit_and_le t (n - 1))

module _ (L : LockApi) where
  open L use {readers, writers}

  -- Each shard counts its read guards, and the writers that hold it.
  pub record Inv (n : ℕ) (c : RwLock L) : Type 0 where
    pub reading : (j : ℕ) → readers (c.shards j) ≡ count j c.guards
    pub writing : (j : ℕ) → writers (c.shards j) ≡ count_above j c.holders
    pub inside : (j : ℕ) → 0 < count j c.guards → j < n

  reads-Inv :
      (n k : ℕ) (l : L.Lock) (c : RwLock L)
      → k < n
      → L.try_read (c.shards k) ≡ some l
      → Inv n c
      → Inv n (grant_read L k l c)
  unfolding grant_read count
  reads-Inv n k l c below e v = record {
    reading = λ j. ground (arith, L.read-granted (c.shards k) l e, v.reading j);
    writing = λ j. ground (arith, L.read-granted (c.shards k) l e, v.writing j);
    inside = λ j h. ground (arith, v.inside j);
  }

  drops-Inv :
      (n k : ℕ) (xs ys : List ℕ) (c : RwLock L)
      → c.guards ≡ xs ++ k ∷ ys
      → Inv n c
      → Inv n (drop_read L k (xs ++ ys) c)
  unfolding drop_read count
  drops-Inv n k xs ys c e v =
      let split : (j : ℕ) → count j c.guards ≡ (if k == j then 1 else 0) + count j (xs ++ ys) =
        λ j. ap (count j) e ∙ count-middle j k xs ys in
      record {
        reading = λ j.
            ground
              (arith, L.read-released (c.shards k), v.reading k, split k, v.reading j, split j);
        writing =
            λ j. ground (arith, L.read-released (c.shards k), v.reading k, split k, v.writing j);
        inside = λ j h. v.inside j (omega (arith, split j));
      }

  locks-Inv :
      (n k : ℕ) (xs ys : List ℕ) (l : L.Lock) (c : RwLock L)
      → c.holders ≡ xs ++ k ∷ ys
      → L.try_write (c.shards k) ≡ some l
      → Inv n c
      → Inv n (lock_shard L k l (xs ++ suc k ∷ ys) c)
  unfolding lock_shard count_above
  locks-Inv n k xs ys l c e granted v =
      let split : (j : ℕ)
          → count_above j c.holders ≡ (if ltb j k then 1 else 0) + count_above j (xs ++ ys) =
        λ j. ap (count_above j) e ∙ count_above-middle j k xs ys in
      record {
        reading = λ j. ground (arith, L.write-granted (c.shards k) l granted, v.reading j);
        writing = λ j. ground (
          arith,
          L.write-granted (c.shards k) l granted,
          v.writing j,
          split j,
          count_above-middle j (suc k) xs ys,
        );
        inside = v.inside;
      }

  unlocks-Inv :
      (n k : ℕ) (xs ys : List ℕ) (c : RwLock L)
      → c.holders ≡ xs ++ suc k ∷ ys
      → Inv n c
      → Inv n (unlock_shard L k (xs ++ k ∷ ys) c)
  unfolding unlock_shard count_above
  unlocks-Inv n k xs ys c e v =
      let split : (j : ℕ)
          → count_above j c.holders ≡ (if ltb j (suc k) then 1 else 0) + count_above j (xs ++ ys) =
        λ j. ap (count_above j) e ∙ count_above-middle j (suc k) xs ys in
      record {
        reading =
            λ j. ground (arith, L.write-released (c.shards k), v.writing k, split k, v.reading j);
        writing = λ j. ground (
          arith,
          L.write-released (c.shards k),
          v.writing k,
          split k,
          v.writing j,
          split j,
          count_above-middle j k xs ys,
        );
        inside = v.inside;
      }

  Step-Inv : {n : ℕ} {c c' : RwLock L} → 0 < n → Step L n c c' → Inv n c → Inv n c'
  unfolding count_above
  Step-Inv {n} {c} pos (reads {l} t e) v =
      reads-Inv n (shard_index t n) l c (shard_index-lt t n pos) e v
  Step-Inv {n} {c} pos (drops_guard xs ys k e) v = drops-Inv n k xs ys c e v
  Step-Inv {n} {c} pos begins v = record {
    reading = v.reading;
    writing = λ j. ground (arith, v.writing j);
    inside = v.inside;
  }
  Step-Inv {n} {c} pos (locks {l} xs ys k e below granted) v = locks-Inv n k xs ys l c e granted v
  Step-Inv {n} {c} pos (unlocks xs ys k e) v = unlocks-Inv n k xs ys c e v
  Step-Inv {n} {c} pos (ends xs ys e) v = record {
    reading = v.reading;
    writing = λ j. ground (arith, v.writing j, ap (count_above j) e, count_above-middle j 0 xs ys);
    inside = v.inside;
  }

  pub Reach-Inv : {n : ℕ} {c : RwLock L} → 0 < n → Reach L n (new L) c → Inv n c
  unfolding new count count_above
  Reach-Inv pos here = record {
    reading = λ j. L.new-free.0;
    writing = λ j. L.new-free.1;
    inside = λ j h. absurd (omega arith);
  }
  Reach-Inv pos (next r st) = Step-Inv pos st (Reach-Inv pos r)

  no_guards :
      (n : ℕ) (c : RwLock L) (guards : List ℕ)
      → c.guards ≡ guards
      → Inv n c
      → ((j : ℕ) → j < n → 0 < count_above j c.holders)
      → guards ≡ []
  unfolding count
  no_guards n c [] e v held = refl
  no_guards n c (g ∷ gs) e v held =
      let some_guard : count g c.guards ≡ 1 + count g gs = ground (arith, ap (count g) e) in
      absurd (
        omega (
          arith,
          some_guard,
          v.reading g,
          v.writing g,
          held g (v.inside g (omega (arith, some_guard))),
          L.exclusive (c.shards g)
              (omega (arith, v.writing g, held g (v.inside g (omega (arith, some_guard))))),
        ))

  -- In any history of readers and writers of a lock with at least one shard: while a writer holds all
  -- the shards, nobody has a read guard, and no other writer holds any shard.
  pub writer_is_alone :
      (n : ℕ) (c : RwLock L) (xs ys : List ℕ)
      → 0 < n
      → Reach L n (new L) c
      → c.holders ≡ xs ++ n ∷ ys
      → (c.guards ≡ []) × (count_above 0 (xs ++ ys) ≡ 0)
  unfolding count_above
  writer_is_alone n c xs ys pos r e =
      let v = Reach-Inv pos r in
      let split : (j : ℕ)
          → count_above j c.holders ≡ (if ltb j n then 1 else 0) + count_above j (xs ++ ys) =
        λ j. ap (count_above j) e ∙ count_above-middle j n xs ys in
      (
        no_guards n c c.guards refl v (λ j below. ground (arith, split j)),
        ground (arith, split 0, v.writing 0, L.exclusive (c.shards 0)),
      )
