-- ===== src/Reactor/ShardedRwlock/LastShard.antt =====
-- src/reactor/sharded_rwlock.rs: who holds the last shard, and when.
use romio.Base.{
  ℕ, zero, suc, ◌-◌, ◌≤◌, ◌<◌, Bool, ◌≡◌, refl, ◌∙◌, ap, true, false, some, List, [], ◌∷◌, ◌++◌,
  arith,
}
use romio.Deps.Locks.{LockApi}
use romio.Reactor.ShardedRwlock.Machine.{
  RwLock, shard_index, new, grant_read, drop_read, lock_shard, unlock_shard, Step, reads,
  drops_guard, begins, locks, unlocks, ends, Reach,
}
use romio.Reactor.ShardedRwlock.Machine
use romio.Reactor.ShardedRwlock.Counts.{count_above, count_above-middle}
use romio.Reactor.ShardedRwlock.Exclusion.{Inv, writer_is_alone}

pub count_above-anti : (j k : ℕ) (ks : List ℕ) → j ≤ k → count_above k ks ≤ count_above j ks
unfolding count_above
count_above-anti j k [] h = omega arith
count_above-anti j k (x ∷ ks) h = ground (arith, count_above-anti j k ks h)

unfoldable pub size : List ℕ → ℕ
size [] = 0
size (k ∷ ks) = suc (size ks)

pub size-middle : (k : ℕ) (xs ys : List ℕ) → size (xs ++ k ∷ ys) ≡ suc (size (xs ++ ys))
unfolding size
size-middle k [] ys = refl
size-middle k (x ∷ xs) ys = ap suc (size-middle k xs ys)

unfoldable pub positive : ℕ → Bool
positive zero = false
positive (suc n) = true

pub positive_of_lt : (n : ℕ) → 0 < n → positive n ≡ true
unfolding positive
positive_of_lt zero h = absurd (omega arith)
positive_of_lt (suc n) h = refl

pub positive_of_zero : (n : ℕ) → n ≡ 0 → positive n ≡ false
unfolding positive
positive_of_zero zero h = refl
positive_of_zero (suc n) h = absurd (omega arith)

module _ (L : LockApi) where
  -- While a shard is free to read, no writer has the last one.
  pub none_writes :
      (n k : ℕ) (c : RwLock L) (l : L.Lock)
      → Inv L n c
      → k < n
      → L.try_read (c.shards k) ≡ some l
      → 0 < L.readers l
      → count_above (n - 1) c.holders ≡ 0
  none_writes n k c l v below e h = ground (
    arith,
    L.read-granted (c.shards k) l e,
    L.exclusive l,
    v.writing k,
    count_above-anti k (n - 1) c.holders (omega arith),
  )

  pub none_writes_yet :
      (n k : ℕ) (c : RwLock L) (l : L.Lock)
      → Inv L n c
      → suc k ≡ n
      → L.try_write (c.shards k) ≡ some l
      → count_above (n - 1) c.holders ≡ 0
  none_writes_yet n k c l v last e =
      let same : n - 1 ≡ k = omega arith in
      rw same (ground (arith, L.write-granted (c.shards k) l e, L.exclusive l, v.writing k))

  pub one_writes :
      (n k : ℕ) (c : RwLock L)
      → Inv L n c
      → suc k ≡ n
      → 0 < count_above (n - 1) c.holders
      → count_above (n - 1) c.holders ≡ 1
  one_writes n k c v last h = ground (arith, L.exclusive (c.shards (n - 1)), v.writing (n - 1))

  pub no_readers :
      (n k : ℕ) (xs ys : List ℕ) (l : L.Lock) (c : RwLock L)
      → Reach L n (new L) c
      → (e : c.holders ≡ xs ++ k ∷ ys) → (below : k < n)
      → (granted : L.try_write (c.shards k) ≡ some l) → suc k ≡ n
      → size c.guards ≡ 0
  unfolding lock_shard size
  no_readers n k xs ys l c r e below granted last =
      let c' = lock_shard L k l (xs ++ suc k ∷ ys) c in
      ap size
        (writer_is_alone L n c' xs ys (omega arith)
          (Machine.next r (locks {l = l} xs ys k e below granted))
          (ap (λ (m : ℕ). xs ++ m ∷ ys) last)).0

  pub holds :
      (n : ℕ) (xs ys : List ℕ) (c : RwLock L)
      → 0 < n
      → c.holders ≡ xs ++ n ∷ ys
      → positive (count_above (n - 1) c.holders) ≡ true
  unfolding count_above
  holds n xs ys c pos e =
      positive_of_lt (count_above (n - 1) c.holders)
        (ground (arith, ap (count_above (n - 1)) e ∙ count_above-middle (n - 1) n xs ys))
