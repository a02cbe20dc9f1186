-- ===== src/Deps/Slabs.antt =====
-- `slab::Slab<T>`: values under keys that the slab chooses. Its documentation: a slab is a vector of
-- slots; an insertion reuses a vacant slot if there is one and adds one slot otherwise.
use mathlib.Core.Option
use romio.Base.{
  ℕ, ◌+◌, ◌≤◌, ◌<◌, ◌≡◌, Option, none, some, List, ◌∷◌, ◌++◌, ◌==◌, if◌then◌else◌, ◌⊎◌, inl, inr,
  Option-cases, arith,
}

pub record SlabApi : Type 1 where
  pub Slab : Type 0 → Type 0
  pub empty_slab : {A : Type 0} → Slab A
  pub len : {A : Type 0} → Slab A → ℕ
  pub slots : {A : Type 0} → Slab A → ℕ
  pub get : {A : Type 0} → ℕ → Slab A → Option A
  pub insert : {A : Type 0} → A → Slab A → ℕ × Slab A
  pub remove : {A : Type 0} → ℕ → Slab A → Slab A
  -- A write to the value under a key, by a reference to it: the atomics of a `ScheduledIo`.
  pub modify : {A : Type 0} → ℕ → (A → A) → Slab A → Slab A
  pub iter : {A : Type 0} → Slab A → List (ℕ × A)
  pub get-empty : {A : Type 0} (k : ℕ) → get {A = A} k empty_slab ≡ none
  pub len-empty : {A : Type 0} → len {A = A} empty_slab ≡ 0
  pub slots-empty : {A : Type 0} → slots {A = A} empty_slab ≡ 0
  pub insert_vacant : {A : Type 0} (a : A) (s : Slab A) → get (insert a s).0 s ≡ none
  pub get-insert :
      {A : Type 0} (a : A) (s : Slab A) (j : ℕ)
      → get j (insert a s).1 ≡ (if (insert a s).0 == j then some a else get j s)
  pub len-insert : {A : Type 0} (a : A) (s : Slab A) → len (insert a s).1 ≡ len s + 1
  pub insert-slots : {A : Type 0} (a : A) (s : Slab A) → (insert a s).0 < slots (insert a s).1
  pub slots-insert :
      {A : Type 0} (a : A) (s : Slab A) (n : ℕ)
      → slots s ≤ n
      → len s + 1 ≤ n
      → slots (insert a s).1 ≤ n
  pub get-remove :
      {A : Type 0} (k : ℕ) (s : Slab A) (j : ℕ)
      → get j (remove k s) ≡ (if k == j then none else get j s)
  pub len-remove :
      {A : Type 0} (k : ℕ) (s : Slab A) (a : A) → get k s ≡ some a → len (remove k s) + 1 ≡ len s
  pub slots-remove : {A : Type 0} (k : ℕ) (s : Slab A) → slots (remove k s) ≡ slots s
  pub get-modify :
      {A : Type 0} (k : ℕ) (f : A → A) (s : Slab A) (j : ℕ)
      → get j (modify k f s) ≡ (if k == j then Option.map f (get j s) else get j s)
  pub len-modify : {A : Type 0} (k : ℕ) (f : A → A) (s : Slab A) → len (modify k f s) ≡ len s
  pub slots-modify : {A : Type 0} (k : ℕ) (f : A → A) (s : Slab A) → slots (modify k f s) ≡ slots s
  pub iter-get :
      {A : Type 0} (s : Slab A) (k : ℕ) (a : A)
      → get k s ≡ some a
      → (before after : List (ℕ × A)) × (iter s ≡ before ++ (k, a) ∷ after)

-- What the laws say of a value that is found after an insertion, a removal or a write.
module _ (api : SlabApi) {A : Type 0} where
  open api use {Slab, get, insert, remove, modify, get-insert, get-remove, get-modify}

  pub get-insert_cases :
      (a b : A) (s : Slab A) (j : ℕ)
      → get j (insert a s).1 ≡ some b
      → ((j ≡ (insert a s).0) × (b ≡ a)) ⊎ (get j s ≡ some b)
  get-insert_cases a b s j e = ground (arith, get-insert a s j)

  pub get-remove_some :
      (k : ℕ) (b : A) (s : Slab A) (j : ℕ) → get j (remove k s) ≡ some b → get j s ≡ some b
  get-remove_some k b s j e = ground (arith, get-remove k s j)

  pub get-modify_cases :
      (k : ℕ) (f : A → A) (b : A) (s : Slab A) (j : ℕ)
      → get j (modify k f s) ≡ some b
      → (a : A) × (get j s ≡ some a) × ((b ≡ a) ⊎ (b ≡ f a))
  get-modify_cases k f b s j e = elim (Option-cases (get j s)) [
    | inl none_there ↦ ground (arith, get-modify k f s j)
    | inr (a, there) ↦ (a, there, ground (arith, get-modify k f s j))
  ]
