-- ===== src/Examples/Locks.antt =====
-- The sharded lock at concrete inputs, over a lock that is a counter or a flag.
use romio.Base.{
  List, ◌%◌, ◌≢◌, ◌⊎◌, ◌∷◌, ℕ, zero, suc, ◌<◌, ◌≡◌, refl, Option, none, some, [], ◌++◌, arith,
}
use romio.Deps.Locks.{LockApi}
use romio.Reactor.ShardedRwlock.Machine.{
  RwLock, shard_index, new, grant_read, drop_read, lock_shard, Reach, here, next, reads,
  drops_guard, begins, locks,
}
use romio.Reactor.ShardedRwlock.Indices.{
  Threads, Registration, start, new_indices, start_thread, register_thread, pop_index,
  drop_registration, starts, stops,
}
use romio.Reactor.ShardedRwlock.Indices
use romio.Reactor.ShardedRwlock.Machine
use romio.Reactor.ShardedRwlock.LastShard.{size}
use romio.Reactor.ShardedRwlock.Progress.{no_deadlock}
use romio.Reactor.ShardedRwlock.Refines.{sharded_refines}
use romio.Reactor.ShardedRwlock.Size.{
  num_shards, power_from, thread_index, LeastPower, shard_index-num_shards, shards_differ,
}
use romio.Reactor.ShardedRwlock.Value
use romio.Reactor.ShardedRwlock.Value.{
  silent, read_locked, read_unlocked, write_locked, loaded, stored, Shared, with_value, deref,
  deref_mut, label, moves, loads_shared, Run,
}
use romio.Reactor.ShardedRwlock.Atomic.{Atomic, unlocked, History, last_stored}

data Lock : Type 0 where
  shared : ℕ → Lock
  written : Lock

abbrev readers : Lock → ℕ
readers (shared n) = n
readers written = 0

abbrev writers : Lock → ℕ
writers (shared n) = 0
writers written = 1

abbrev try_read : Lock → Option Lock
try_read (shared n) = some (shared (suc n))
try_read written = none

abbrev try_write : Lock → Option Lock
try_write (shared zero) = some written
try_write (shared (suc n)) = none
try_write written = none

abbrev unlock_read : Lock → Lock
unlock_read (shared zero) = shared zero
unlock_read (shared (suc n)) = shared n
unlock_read written = written

abbrev unlock_write : Lock → Lock
unlock_write l = shared 0

exclusive : (l : Lock) → 0 < writers l → (writers l ≡ 1) × (readers l ≡ 0)
exclusive (shared n) h = absurd (omega arith)
exclusive written h = (refl, refl)

read_granted :
    (l l' : Lock) → try_read l ≡ some l' → (readers l' ≡ suc (readers l)) × (writers l' ≡ writers l)
read_granted (shared n) (shared m) e = (ground arith, refl)
read_granted (shared n) written e = ground arith
read_granted written l' e = ground arith

write_granted :
    (l l' : Lock)
    → try_write l ≡ some l'
    → (readers l' ≡ readers l) × (writers l' ≡ suc (writers l))
write_granted (shared zero) (shared m) e = ground arith
write_granted (shared zero) written e = (refl, refl)
write_granted (shared (suc n)) l' e = ground arith
write_granted written l' e = ground arith

write_free : (l : Lock) → readers l ≡ 0 → writers l ≡ 0 → (l' : Lock) × (try_write l ≡ some l')
write_free (shared zero) r w = (written, refl)
write_free (shared (suc n)) r w = absurd (omega arith)
write_free written r w = absurd (omega arith)

read_released :
    (l : Lock)
    → 0 < readers l
    → (suc (readers (unlock_read l)) ≡ readers l) × (writers (unlock_read l) ≡ writers l)
read_released (shared zero) h = absurd (omega arith)
read_released (shared (suc n)) h = (refl, refl)
read_released written h = absurd (omega arith)

write_released :
    (l : Lock)
    → 0 < writers l
    → (readers (unlock_write l) ≡ readers l) × (suc (writers (unlock_write l)) ≡ writers l)
write_released (shared n) h = absurd (omega arith)
write_released written h = (refl, refl)

abbrev lock_model : LockApi
lock_model = record {
  Lock = Lock;
  new_lock = shared 0;
  readers = readers;
  writers = writers;
  try_read = try_read;
  try_write = try_write;
  unlock_read = unlock_read;
  force_unlock_write = unlock_write;
  new-free = (refl, refl);
  exclusive = exclusive;
  read-granted = read_granted;
  write-granted = write_granted;
  write-free = write_free;
  read-released = read_released;
  write-released = write_released;
}

-- Two writers of a lock with two shards, which neither has locked yet.
abbrev two_writers : (c : RwLock lock_model) × Reach lock_model 2 (new lock_model) c
unfolding new
two_writers = (_, next (next here begins) begins)

no_deadlock_example :
    (xs ys : List ℕ) × (top : ℕ) × (0 ∷ 0 ∷ [] ≡ xs ++ top ∷ ys)
    × ((top ≡ 2)
        ⊎ ((l : Lock) × Machine.Step lock_model 2 two_writers.0
              (lock_shard lock_model top l (xs ++ suc top ∷ ys) two_writers.0)))
unfolding new
no_deadlock_example =
    no_deadlock lock_model 2 two_writers.0 0 (0 ∷ []) (omega arith) two_writers.1 refl refl

-- With two shards: thread 5 reads 40 while a writer has the first shard, and the writer stores 41 once
-- the reader is gone.
abbrev written_value :
    (c : Shared lock_model ℕ) × Run lock_model
      (num_shards 2)
      (with_value lock_model 40)
      (stored 41 ∷ write_locked ∷ read_unlocked ∷ loaded 40 ∷ silent ∷ silent ∷ read_locked ∷ [])
      c
unfolding num_shards power_from with_value deref deref_mut label shard_index new grant_read
    drop_read lock_shard
written_value = (
  _,
  Value.next
      (Value.next
        (Value.next
          (Value.next
            (Value.next (Value.next (Value.next Value.here (moves (reads 5 refl))) (moves begins))
              (moves (locks [] [] 0 refl (omega arith) refl)))
            (loads_shared [] [] 1 refl))
          (moves (drops_guard [] [] 1 refl)))
        (moves (locks [] [] 1 refl (omega arith) refl)))
      (Value.stores [] [] 41 refl),
)

sharded_refines_example :
    (a : Atomic ℕ) × History
      (unlocked 40)
      (stored 41 ∷ write_locked ∷ read_unlocked ∷ loaded 40 ∷ silent ∷ silent ∷ read_locked ∷ [])
      a
    × (a.readers ≡ size (written_value.0).lock.guards)
    × (a.value ≡ (written_value.0).value)
    × ((written_value.0).value ≡ 41)
unfolding last_stored
sharded_refines_example =
    sharded_refines lock_model 2 40
      (stored 41 ∷ write_locked ∷ read_unlocked ∷ loaded 40 ∷ silent ∷ silent ∷ read_locked ∷ [])
      written_value.0 written_value.1

-- Thread 7 starts and thread 8 after it; thread 7 ends, and thread 9 takes its index.
abbrev three_threads : (c : Threads) × Indices.Reach start c
unfolding start new_indices start_thread register_thread pop_index drop_registration
three_threads = (
  _,
  Indices.next
      (Indices.next
        (Indices.next (Indices.next Indices.here (starts 7 (omega arith))) (starts 8 (omega arith)))
        (stops (record { index = 1; thread_id = 8 } ∷ []) [] (record { index = 0; thread_id = 7 })
          refl))
      (starts 9 (omega arith)),
)

shard_index-num_shards_example :
    LeastPower 6 (num_shards 6)
    × (shard_index 13 (num_shards 6) ≡ 13 % num_shards 6)
    × (shard_index 13 (num_shards 6) < num_shards 6)
unfolding thread_index
shard_index-num_shards_example =
    shard_index-num_shards 6 (some (record { index = 13; thread_id = 7 }))

shards_differ_example : shard_index 0 (num_shards 2) ≢ shard_index 1 (num_shards 2)
unfolding thread_index start new_indices start_thread register_thread pop_index drop_registration
    num_shards power_from
shards_differ_example =
    shards_differ 2 three_threads.0 [] [] [] (record { index = 0; thread_id = 9 })
      (record { index = 1; thread_id = 8 }) three_threads.1 refl (omega arith)
