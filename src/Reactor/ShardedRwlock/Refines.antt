-- ===== src/Reactor/ShardedRwlock/Refines.antt =====
-- src/reactor/sharded_rwlock.rs: the lock of shards behaves as one reader-writer lock.
use romio.Base.{
  ℕ, suc, ◌-◌, ◌<◌, ◌≡◌, refl, ◌∙◌, ap, inl, inr, Bool-cases, some, List, ◌∷◌, ◌++◌, arith, ◌==◌,
}
use romio.Deps.Locks.{LockApi}
use romio.Reactor.ShardedRwlock.Machine.{
  RwLock, shard_index, new, grant_read, drop_read, lock_shard, unlock_shard, Step, reads,
  drops_guard, begins, locks, unlocks, ends, Reach,
}
use romio.Reactor.ShardedRwlock.Machine
use romio.Reactor.ShardedRwlock.Counts.{count_above, count_above-middle}
use romio.Reactor.ShardedRwlock.Exclusion.{Reach-Inv, shard_index-lt}
use romio.Reactor.ShardedRwlock.Size.{num_shards, num_shards-pos}
use romio.Reactor.ShardedRwlock.LastShard.{
  size, size-middle, positive, positive_of_lt, positive_of_zero, none_writes, none_writes_yet,
  one_writes, no_readers, holds,
}
use romio.Reactor.ShardedRwlock.Value.{
  Label, Shared, with_value, deref, deref_mut, label, Acts, moves, loads_shared, loads_exclusive,
  stores, Run, here, next,
}
use romio.Reactor.ShardedRwlock.Atomic.{
  Atomic, unlocked, Allows, idles, locks_read, unlocks_read, locks_write, unlocks_write, loads,
  History, last_stored, value-last_stored,
}
use romio.Reactor.ShardedRwlock.Atomic

module _ {ℓ} (L : LockApi) {T : Type ℓ} where
  -- As many readers as guards; and a writer, if one has locked the last shard.
  abbrev view : ℕ → RwLock L → T → Atomic T
  view n c value = record {
    readers = size c.guards;
    writing = positive (count_above (n - 1) c.holders);
    value = value;
  }

  locks-Allows :
      (n k : ℕ) (xs ys : List ℕ) (l : L.Lock) (c : RwLock L) (value : T)
      → Reach L n (new L) c
      → (e : c.holders ≡ xs ++ k ∷ ys) → (below : k < n)
      → (granted : L.try_write (c.shards k) ≡ some l)
      → Allows
          (view n c value)
          (label L {c = c} (locks {l = l} xs ys k e below granted))
          (view n (lock_shard L k l (xs ++ suc k ∷ ys) c) value)
  unfolding label lock_shard count_above positive
  locks-Allows n k xs ys l c value r e below granted =
      let v = Reach-Inv L (omega arith) r in
      let before = ap (count_above (n - 1)) e ∙ count_above-middle (n - 1) k xs ys in
      let after = count_above-middle (n - 1) (suc k) xs ys in
      elim (Bool-cases (suc k == n)) [
        | inl last ↦
            let full : suc k ≡ n = ground (arith, last) in
            let now : count_above (n - 1) (xs ++ suc k ∷ ys)
                ≡ suc (count_above (n - 1) (xs ++ ys)) =
              ground (arith, after) in
            rw (last, now)
              (locks_write (no_readers L n k xs ys l c r e below granted full) (
                positive_of_zero (count_above (n - 1) c.holders)
                  (none_writes_yet L n k c l v full granted)))
        | inr more ↦
            let same : count_above (n - 1) (xs ++ suc k ∷ ys) ≡ count_above (n - 1) c.holders =
              ground (arith, after, before, more) in
            rw (more, same) idles
      ]

  unlocks-Allows :
      (n k : ℕ) (xs ys : List ℕ) (c : RwLock L) (value : T)
      → Reach L n (new L) c
      → 0 < n
      → (e : c.holders ≡ xs ++ suc k ∷ ys)
      → Allows
          (view n c value)
          (label L {n = n} {c = c} (unlocks xs ys k e))
          (view n (unlock_shard L k (xs ++ k ∷ ys) c) value)
  unfolding label unlock_shard count_above positive
  unlocks-Allows n k xs ys c value r pos e =
      let v = Reach-Inv L pos r in
      let before = ap (count_above (n - 1)) e ∙ count_above-middle (n - 1) (suc k) xs ys in
      let after = count_above-middle (n - 1) k xs ys in
      elim (Bool-cases (suc k == n)) [
        | inl last ↦
            let full : suc k ≡ n = ground (arith, last) in
            let one : count_above (n - 1) c.holders ≡ 1 =
              one_writes L n k c v full (ground (arith, before)) in
            let none_left : count_above (n - 1) (xs ++ k ∷ ys) ≡ 0 =
              ground (arith, after, before, one) in
            rw (last, none_left)
              (unlocks_write (positive_of_lt (count_above (n - 1) c.holders) (omega (arith, one))))
        | inr more ↦
            let same : count_above (n - 1) (xs ++ k ∷ ys) ≡ count_above (n - 1) c.holders =
              ground (arith, after, before, more) in
            rw (more, same) idles
      ]

  Step-Allows :
      (n : ℕ) (c c' : RwLock L) (value : T)
      → 0 < n
      → Reach L n (new L) c
      → (st : Step L n c c') → Allows (view n c value) (label L st) (view n c' value)
  unfolding label grant_read drop_read size count_above
  Step-Allows n c c' value pos r (reads {l} t e) =
      let v = Reach-Inv L pos r in
      locks_read (
        positive_of_zero (count_above (n - 1) c.holders) (
          none_writes L n (shard_index t n) c l v (shard_index-lt t n pos) e
            (omega (arith, L.read-granted (c.shards (shard_index t n)) l e))))
  Step-Allows n c c' value pos r (drops_guard xs ys k e) =
      unlocks_read (size (xs ++ ys)) (ap size e ∙ size-middle k xs ys)
  Step-Allows n c c' value pos r begins =
      let same : count_above (n - 1) (0 ∷ c.holders) ≡ count_above (n - 1) c.holders =
        ground arith in
      rw same idles
  Step-Allows n c c' value pos r (locks {l} xs ys k e below granted) =
      locks-Allows n k xs ys l c value r e below granted
  Step-Allows n c c' value pos r (unlocks xs ys k e) = unlocks-Allows n k xs ys c value r pos e
  Step-Allows n c c' value pos r (ends xs ys e) =
      let same : count_above (n - 1) (xs ++ ys) ≡ count_above (n - 1) c.holders =
        ground (arith, ap (count_above (n - 1)) e ∙ count_above-middle (n - 1) 0 xs ys) in
      rw same idles

  Acts-Allows :
      (n : ℕ) (c c' : Shared L T) (l : Label T)
      → 0 < n
      → Reach L n (new L) c.lock
      → Acts L n c l c'
      → Allows (view n c.lock c.value) l (view n c'.lock c'.value)
  unfolding deref deref_mut size
  Acts-Allows n c c' l pos r (moves {lock'} st) = Step-Allows n c.lock lock' c.value pos r st
  Acts-Allows n c c' l pos r (loads_shared xs ys k e) =
      loads (inl (omega (arith, ap size e ∙ size-middle k xs ys)))
  Acts-Allows n c c' l pos r (loads_exclusive xs ys e) = loads (inr (holds L n xs ys c.lock pos e))
  Acts-Allows n c c' l pos r (stores xs ys value e) =
      Atomic.stores value (holds L n xs ys c.lock pos e)

  Acts-Reach :
      (n : ℕ) (c c' : Shared L T) (l : Label T)
      → Reach L n (new L) c.lock
      → Acts L n c l c'
      → Reach L n (new L) c'.lock
  unfolding deref_mut
  Acts-Reach n c c' l r (moves st) = Machine.next r st
  Acts-Reach n c c' l r (loads_shared xs ys k e) = r
  Acts-Reach n c c' l r (loads_exclusive xs ys e) = r
  Acts-Reach n c c' l r (stores xs ys value e) = r

  Run-Reach :
      {n : ℕ} (value : T) {labels : List (Label T)} {c : Shared L T}
      → Run L n (with_value L value) labels c
      → Reach L n (new L) c.lock
  unfolding with_value
  Run-Reach value here = Machine.here
  Run-Reach value (next {labels} {l} {t} {u} run act) = Acts-Reach _ t u l (Run-Reach value run) act

  Run-History :
      {n : ℕ} (value : T) {labels : List (Label T)} {c : Shared L T}
      → 0 < n
      → Run L n (with_value L value) labels c
      → History (unlocked value) labels (view n c.lock c.value)
  unfolding with_value new size count_above positive
  Run-History value pos here = Atomic.here
  Run-History {n} value pos (next {labels} {l} {t} {u} run act) =
      Atomic.next (Run-History value pos run) (Acts-Allows n t u l pos (Run-Reach value run) act)

  -- The lock of shards refines one reader-writer lock: whatever threads do to a new lock, on a machine
  -- with any number of processors, an atomic reader-writer lock that starts unlocked with the same
  -- value allows with the same labels in the same order, and it ends with as many readers as there are
  -- read guards and with the same value, which is the one stored last.
  pub sharded_refines :
      (num_cpus : ℕ) (value : T) (labels : List (Label T)) (c : Shared L T)
      → Run L (num_shards num_cpus) (with_value L value) labels c
      → (a : Atomic T) × History (unlocked value) labels a
        × (a.readers ≡ size c.lock.guards)
        × (a.value ≡ c.value)
        × (c.value ≡ last_stored value labels)
  sharded_refines num_cpus value labels c run =
      let history = Run-History value (num_shards-pos num_cpus) run in
      (
        view (num_shards num_cpus) c.lock c.value,
        history,
        refl,
        refl,
        value-last_stored value history,
      )
