-- ===== src/Reactor/ShardedRwlock/Size.antt =====
-- src/reactor/sharded_rwlock.rs: how many shards a lock has, and the shard that a thread reads.
use mathlib.Core.List.{append_assoc}
use native.Mathlib.Nat.{pow-suc, one-le-pow, div-add-mod', mod-lt, mod-eq_of_lt}
use romio.Base.{
  subst, sym, ℕ, zero, suc, ◌+◌, ◌*◌, ◌/◌, ◌%◌, ◌^◌, ◌≤◌, ◌<◌, ◌≡◌, ◌≢◌, refl, ◌∙◌, ap, Bool-cases,
  inl, inr, ◌⊎◌, Option, none, some, List, ◌∷◌, ◌++◌, arith, leb, if◌then◌else◌,
}
use romio.Base.Bits.{bit_and-low}
use romio.Reactor.ShardedRwlock.Machine.{shard_index}
use romio.Reactor.ShardedRwlock.Indices.{Registration, Threads, start, Reach}
use romio.Reactor.ShardedRwlock.Distinct.{holding, holding-middle, indices_differ}

-- `usize::next_power_of_two`: `power` doubled until it is at least `n`. `n` rounds are enough.
unfoldable pub power_from : ℕ → ℕ → ℕ → ℕ
power_from zero power n = power
power_from (suc fuel) power n =
    let rest = power_from fuel (2 * power) n in if leb n power then power else rest

-- `num_cpus::get().next_power_of_two()`
unfoldable pub num_shards : ℕ → ℕ
num_shards num_cpus = power_from num_cpus 1 num_cpus

-- `thread_index`: without the thread-local value, while the thread is torn down, it is 0.
unfoldable pub thread_index : Option Registration → ℕ
thread_index none = 0
thread_index (some reg) = reg.index

-- The least power of two that is at least `n`.
abbrev pub LeastPower : ℕ → ℕ → Type 0
LeastPower n power = ((k : ℕ) × (power ≡ 2 ^ k)) × (n ≤ power) × ((power ≡ 1) ⊎ (power < 2 * n))

power_from-LeastPower :
    (fuel j n : ℕ)
    → n ≤ fuel + 2 ^ j
    → (2 ^ j ≡ 1) ⊎ (2 ^ j < 2 * n)
    → LeastPower n (power_from fuel (2 ^ j) n)
unfolding power_from
power_from-LeastPower zero j n h least = ((j, refl), omega arith, least)
power_from-LeastPower (suc fuel) j n h least =
    let double : 2 * 2 ^ j ≡ 2 ^ suc j = omega (arith, pow-suc 2 j) in
    elim (Bool-cases (leb n (2 ^ j))) [
      | inl enough ↦ rw enough ((j, refl), ground (arith, enough), least)
      | inr short ↦
          rw (short, double)
            (power_from-LeastPower fuel (suc j) n (omega (arith, pow-suc 2 j, one-le-pow j 2))
              (inr (ground (arith, short, pow-suc 2 j))))
    ]

num_shards-LeastPower : (num_cpus : ℕ) → LeastPower num_cpus (num_shards num_cpus)
unfolding num_shards power_from
num_shards-LeastPower zero = ((0, refl), omega arith, inl refl)
num_shards-LeastPower (suc n) = power_from-LeastPower (suc n) 0 (suc n) (omega arith) (inl refl)

pub num_shards-pos : (num_cpus : ℕ) → 0 < num_shards num_cpus
num_shards-pos num_cpus =
    let (k, power) = (num_shards-LeastPower num_cpus).0 in omega (arith, power, one-le-pow k 2)

mask-mod : (k t : ℕ) → shard_index t (2 ^ k) ≡ t % 2 ^ k
unfolding shard_index
mask-mod k t =
    let split : t / 2 ^ k * 2 ^ k + t % 2 ^ k ≡ t = div-add-mod' t (2 ^ k) in
    rw split at (bit_and-low k (t / 2 ^ k) (t % 2 ^ k) (mod-lt t (omega (arith, one-le-pow k 2))))

-- The number of shards is the least power of two that is at least the number of processors. So the
-- `&` that chooses the shard of a thread is the modulo: on every thread, also while it is torn down,
-- it gives the thread's index modulo the number of shards, which is the number of a shard.
pub shard_index-num_shards :
    (num_cpus : ℕ) (registration : Option Registration)
    → LeastPower num_cpus (num_shards num_cpus)
      × (shard_index (thread_index registration) (num_shards num_cpus)
          ≡ thread_index registration % num_shards num_cpus)
      × (shard_index (thread_index registration) (num_shards num_cpus) < num_shards num_cpus)
shard_index-num_shards num_cpus registration =
    let least = num_shards-LeastPower num_cpus in
    let (k, power) = least.0 in
    let t = thread_index registration in
    let same : shard_index t (num_shards num_cpus) ≡ t % num_shards num_cpus =
      subst (λ (n : ℕ). shard_index t n ≡ t % n) (sym power) (mask-mod k t) in
    (least, same, omega (arith, same, power, mod-lt t (one-le-pow k 2 (omega arith))))

-- Threads do not contend for a shard: while threads start and end, and no index has been given out
-- that is not below the number of shards, two threads that run read different shards.
pub shards_differ :
    (num_cpus : ℕ) (c : Threads) (xs ys zs : List Registration) (a b : Registration)
    → Reach start c
    → c.live ≡ xs ++ a ∷ (ys ++ b ∷ zs)
    → c.indices.next_index ≤ num_shards num_cpus
    → shard_index (thread_index (some a)) (num_shards num_cpus)
      ≢ shard_index (thread_index (some b)) (num_shards num_cpus)
unfolding thread_index holding
shards_differ num_cpus c xs ys zs a b r e few same =
    let e' : c.live ≡ (xs ++ a ∷ ys) ++ b ∷ zs = e ∙ sym (append_assoc xs (a ∷ ys) (b ∷ zs)) in
    let (alone, kept, below) = indices_differ c (xs ++ a ∷ ys) zs b r e' in
    let (_, _, below') = indices_differ c xs (ys ++ b ∷ zs) a r e in
    let apart =
      ap (holding b.index) (append_assoc xs (a ∷ ys) zs) ∙ holding-middle b.index a xs (ys ++ zs) in
    ground (
      arith,
      same,
      (shard_index-num_shards num_cpus (some a)).1,
      (shard_index-num_shards num_cpus (some b)).1,
      mod-eq_of_lt {n = a.index} {m = num_shards num_cpus} (omega arith),
      mod-eq_of_lt {n = b.index} {m = num_shards num_cpus} (omega arith),
      alone,
      apart,
    )
