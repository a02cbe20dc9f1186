-- ===== src/Reactor/ShardedRwlock/Distinct.antt =====
-- src/reactor/sharded_rwlock.rs: threads that run have different indices.
use romio.Base.{
  ℕ, ◌+◌, ◌^◌, ◌<◌, ◌≡◌, refl, ◌∙◌, ap, List, [], ◌∷◌, ◌++◌, arith, ltb, ◌==◌, if◌then◌else◌,
}
use romio.Base.Bits.{usize_bits}
use romio.Reactor.ShardedRwlock.Counts.{count}
use romio.Reactor.ShardedRwlock.Indices.{
  Registration, new_indices, pop_index, start_thread, register_thread, drop_registration, Threads,
  start, Step, starts, stops, Reach, here, next,
}

-- How many of the registrations have index `i`.
unfoldable pub holding : ℕ → List Registration → ℕ
holding i [] = 0
holding i (r ∷ rs) = (if r.index == i then 1 else 0) + holding i rs

pub holding-middle :
    (i : ℕ) (r : Registration) (xs ys : List Registration)
    → holding i (xs ++ r ∷ ys) ≡ holding i (r ∷ (xs ++ ys))
unfolding holding
holding-middle i r [] ys = refl
holding-middle i r (x ∷ xs) ys = omega (arith, holding-middle i r xs ys)

-- Every index below the next one is held once: by a thread that runs, or in the free list.
abbrev Partition : Threads → Type 0
Partition c =
    (i : ℕ)
    → holding i c.live + count i c.indices.free_list ≡ (if ltb i c.indices.next_index then 1 else 0)

popped :
    (free : List ℕ) (c : Threads) (thread_id : ℕ)
    → c.indices.free_list ≡ free
    → c.indices.next_index + 1 < 2 ^ usize_bits
    → Partition c
    → (i : ℕ)
    → (if (pop_index free c.indices).0 == i then 1 else 0)
        + holding i c.live
        + count i (pop_index free c.indices).1.free_list
      ≡ (if ltb i (pop_index free c.indices).1.next_index then 1 else 0)
unfolding pop_index count
popped [] c thread_id e room v i = ground (arith, v i, ap (count i) e)
popped (k ∷ rest) c thread_id e room v i = ground (arith, v i, ap (count i) e)

Step-Partition : {c c' : Threads} → Step c c' → Partition c → Partition c'
unfolding start_thread register_thread drop_registration holding count
Step-Partition {c} (starts thread_id room) v i =
    popped c.indices.free_list c thread_id refl room v i
Step-Partition {c} (stops xs ys reg e) v i =
    omega (arith, v i, ap (holding i) e, holding-middle i reg xs ys)

pub Reach-Partition : {c : Threads} → Reach start c → Partition c
unfolding start new_indices holding count
Reach-Partition here i = ground arith
Reach-Partition (next r st) i = Step-Partition st (Reach-Partition r) i

-- While threads start and end, with fewer than 2^64 indices in all: no other thread that runs has the
-- index of a thread that runs, and its index is below the next one to be made and not free.
pub indices_differ :
    (c : Threads) (xs ys : List Registration) (reg : Registration)
    → Reach start c
    → c.live ≡ xs ++ reg ∷ ys
    → (holding reg.index (xs ++ ys) ≡ 0)
      × (count reg.index c.indices.free_list ≡ 0)
      × (reg.index < c.indices.next_index)
unfolding holding
indices_differ c xs ys reg r e =
    let split = ap (holding reg.index) e ∙ holding-middle reg.index reg xs ys in
    (
      ground (arith, Reach-Partition r reg.index, split),
      ground (arith, Reach-Partition r reg.index, split),
      ground (arith, Reach-Partition r reg.index, split),
    )
