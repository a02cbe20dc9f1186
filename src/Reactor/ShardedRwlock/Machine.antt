-- ===== src/Reactor/ShardedRwlock/Machine.antt =====
-- src/reactor/sharded_rwlock.rs: the lock with the readers and writers that hold shards of it.
use romio.Base.{ℕ, suc, ◌-◌, ◌<◌, ◌≡◌, some, List, [], ◌∷◌, ◌++◌, bit_and, ◌==◌, if◌then◌else◌}
use romio.Deps.Locks.{LockApi}

-- `thread_index() & (self.shards.len() - 1)`
unfoldable pub shard_index : ℕ → ℕ → ℕ
shard_index thread_index num_shards = bit_and thread_index (num_shards - 1)

-- The shards below `num_shards`; the shard of each `RwLockReadGuard`; and for each thread in `write`
-- or in the drop of an `RwLockWriteGuard` how many shards it has locked, which are the first.
pub record RwLock (L : LockApi) : Type 0 where
  pub shards : ℕ → L.Lock
  pub guards : List ℕ
  pub holders : List ℕ

module _ (L : LockApi) where
  open L use {Lock, try_read, try_write, unlock_read, force_unlock_write}

  abbrev pub set_shard : ℕ → Lock → RwLock L → ℕ → Lock
  set_shard k l c j = if k == j then l else c.shards j

  -- `RwLock::new`
  unfoldable pub new : RwLock L
  new = record { shards = λ j. L.new_lock; guards = []; holders = [] }

  -- `read`, once its shard is free to read, and the drop of a guard of shard `k`, which leaves the
  -- guards `rest`.
  unfoldable pub grant_read : ℕ → Lock → RwLock L → RwLock L
  grant_read k l c = record c { shards = set_shard k l c; guards = k ∷ c.guards }

  unfoldable pub drop_read : ℕ → List ℕ → RwLock L → RwLock L
  drop_read k rest c = record c { shards = set_shard k (unlock_read (c.shards k)) c; guards = rest }

  -- One round of the loop of `write`, once shard `k` is free to write, and one of the loop of `drop`.
  unfoldable pub lock_shard : ℕ → Lock → List ℕ → RwLock L → RwLock L
  lock_shard k l holders c = record c { shards = set_shard k l c; holders = holders }

  unfoldable pub unlock_shard : ℕ → List ℕ → RwLock L → RwLock L
  unlock_shard k holders c = record c {
    shards = set_shard k (force_unlock_write (c.shards k)) c;
    holders = holders;
  }

  -- What any thread may do next. A writer that has begun to unlock never locks again in the source;
  -- here it may.
  pub data Step (num_shards : ℕ) (c : RwLock L) : RwLock L → Type 0 where
    reads :
        {l : Lock} (thread_index : ℕ)
        → try_read (c.shards (shard_index thread_index num_shards)) ≡ some l
        → Step num_shards c (grant_read (shard_index thread_index num_shards) l c)
    drops_guard :
        (xs ys : List ℕ) (k : ℕ)
        → c.guards ≡ xs ++ k ∷ ys
        → Step num_shards c (drop_read k (xs ++ ys) c)
    begins : Step num_shards c (record c { holders = 0 ∷ c.holders })
    locks :
        {l : Lock} (xs ys : List ℕ) (k : ℕ)
        → c.holders ≡ xs ++ k ∷ ys
        → k < num_shards
        → try_write (c.shards k) ≡ some l
        → Step num_shards c (lock_shard k l (xs ++ suc k ∷ ys) c)
    unlocks :
        (xs ys : List ℕ) (k : ℕ)
        → c.holders ≡ xs ++ suc k ∷ ys
        → Step num_shards c (unlock_shard k (xs ++ k ∷ ys) c)
    ends :
        (xs ys : List ℕ)
        → c.holders ≡ xs ++ 0 ∷ ys
        → Step num_shards c (record c { holders = xs ++ ys })

  pub data Reach (num_shards : ℕ) (s : RwLock L) : RwLock L → Type 0 where
    here : Reach num_shards s s
    next : {t u : RwLock L} → Reach num_shards s t → Step num_shards t u → Reach num_shards s u
