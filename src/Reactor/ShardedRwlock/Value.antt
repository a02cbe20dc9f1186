-- ===== src/Reactor/ShardedRwlock/Value.antt =====
-- src/reactor/sharded_rwlock.rs: the value behind the lock, and what threads see of it.
use romio.Base.{ℕ, suc, ◌≡◌, List, [], ◌∷◌, ◌++◌, ◌==◌, if◌then◌else◌}
use romio.Deps.Locks.{LockApi}
use romio.Reactor.ShardedRwlock.Machine.{
  RwLock, new, Step, reads, drops_guard, begins, locks, unlocks, ends,
}

-- What a thread does to a lock: `read_locked` and `write_locked` when `read` and `write` have it,
-- `loaded` and `stored` through a guard. Anything else is `silent`.
pub data Label {ℓ} (T : Type ℓ) : Type ℓ where
  silent read_locked read_unlocked write_locked write_unlocked : Label T
  loaded : T → Label T
  stored : T → Label T

-- `struct RwLock<T>`
pub record Shared {ℓ} (L : LockApi) (T : Type ℓ) : Type ℓ where
  pub lock : RwLock L
  pub value : T

module _ {ℓ} (L : LockApi) {T : Type ℓ} where
  -- `RwLock::new(value)`
  unfoldable pub with_value : T → Shared L T
  with_value value = record { lock = new L; value = value }

  -- `Deref` of both guards, and a store through the `DerefMut` of a write guard.
  unfoldable pub deref : Shared L T → T
  deref c = c.value

  unfoldable pub deref_mut : T → Shared L T → Shared L T
  deref_mut value c = record c { value = value }

  -- `write` returns with the last of `n` shards, and a drop gives up the last one first.
  unfoldable pub label : {n : ℕ} {c c' : RwLock L} → Step L n c c' → Label T
  label (reads thread_index granted) = read_locked
  label (drops_guard xs ys k held) = read_unlocked
  label begins = silent
  label {n} (locks xs ys k held below granted) = if suc k == n then write_locked else silent
  label {n} (unlocks xs ys k held) = if suc k == n then write_unlocked else silent
  label (ends xs ys held) = silent

  -- A step of the lock; or a thread with a guard of a shard, or with the write guard, which holds all
  -- shards, uses the value.
  pub data Acts (n : ℕ) (c : Shared L T) : Label T → Shared L T → Type ℓ where
    moves :
        {lock' : RwLock L} (st : Step L n c.lock lock')
        → Acts n c (label st) (record c { lock = lock' })
    loads_shared :
        (xs ys : List ℕ) (k : ℕ) → c.lock.guards ≡ xs ++ k ∷ ys → Acts n c (loaded (deref c)) c
    loads_exclusive :
        (xs ys : List ℕ) → c.lock.holders ≡ xs ++ n ∷ ys → Acts n c (loaded (deref c)) c
    stores :
        (xs ys : List ℕ) (value : T)
        → c.lock.holders ≡ xs ++ n ∷ ys
        → Acts n c (stored value) (deref_mut value c)

  -- What threads can do with a lock of `n` shards, the latest first.
  pub data Run (n : ℕ) (s : Shared L T) : List (Label T) → Shared L T → Type ℓ where
    here : Run n s [] s
    next :
        {labels : List (Label T)} {l : Label T} {t u : Shared L T}
        → Run n s labels t
        → Acts n t l u
        → Run n s (l ∷ labels) u
