-- ===== src/Reactor/ShardedRwlock/Indices.antt =====
-- src/reactor/sharded_rwlock.rs: the registry of thread indices. The last element of `free_list` is
-- the first of the list here.
use romio.Base.{
  ℕ, ◌+◌, ◌%◌, ◌^◌, ◌<◌, Option, none, some, List, [], ◌∷◌, ◌++◌, ◌==◌, if◌then◌else◌, ◌≡◌,
}
use romio.Base.Bits.{usize_bits}

-- `struct ThreadIndices`, and `struct Registration`
pub record ThreadIndices : Type 0 where
  pub mapping : ℕ → Option ℕ
  pub free_list : List ℕ
  pub next_index : ℕ

pub record Registration : Type 0 where
  pub index : ℕ
  pub thread_id : ℕ

unfoldable pub new_indices : ThreadIndices
new_indices = record { mapping = λ t. none; free_list = []; next_index = 0 }

-- The `match` on `indices.free_list.pop()`
unfoldable pub pop_index : List ℕ → ThreadIndices → ℕ × ThreadIndices
pop_index (i ∷ rest) indices = (i, record indices { free_list = rest })
pop_index [] indices =
    (indices.next_index, record indices { next_index = (indices.next_index + 1) % 2 ^ usize_bits })

-- The initial value of the thread-local `REGISTRATION`, on thread `thread_id`
unfoldable pub register_thread : ℕ → ThreadIndices → Registration × ThreadIndices
register_thread thread_id indices =
    let (index, indices') = pop_index indices.free_list indices in
    (
      record { index = index; thread_id = thread_id },
      record indices' { mapping = λ t. if thread_id == t then some index else indices'.mapping t },
    )

-- `impl Drop for Registration`
unfoldable pub drop_registration : Registration → ThreadIndices → ThreadIndices
drop_registration reg indices = record indices {
  mapping = λ t. if reg.thread_id == t then none else indices.mapping t;
  free_list = reg.index ∷ indices.free_list;
}

-- The registry with the registrations of the threads that run.
pub record Threads : Type 0 where
  pub indices : ThreadIndices
  pub live : List Registration

unfoldable pub start : Threads
start = record { indices = new_indices; live = [] }

unfoldable pub start_thread : ℕ → Threads → Threads
start_thread thread_id c =
    let (reg, indices) = register_thread thread_id c.indices in
    record { indices = indices; live = reg ∷ c.live }

-- Threads start and end, with fewer than 2^64 indices in all.
pub data Step (c : Threads) : Threads → Type 0 where
  starts :
      (thread_id : ℕ)
      → c.indices.next_index + 1 < 2 ^ usize_bits
      → Step c (start_thread thread_id c)
  stops :
      (xs ys : List Registration) (reg : Registration)
      → c.live ≡ xs ++ reg ∷ ys
      → Step c (record { indices = drop_registration reg c.indices; live = xs ++ ys })

pub data Reach (s : Threads) : Threads → Type 0 where
  here : Reach s s
  next : {t u : Threads} → Reach s t → Step t u → Reach s u
