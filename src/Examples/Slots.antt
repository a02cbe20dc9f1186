-- ===== src/Examples/Slots.antt =====
-- A slab as the vector of slots that its documentation describes, with the laws of `SlabApi`.
use mathlib.Core.Option
use romio.Base.{
  ℕ, zero, suc, ◌+◌, ◌≤◌, ◌<◌, ◌≡◌, refl, Option, none, some, List, [], ◌∷◌, ◌++◌, ◌==◌,
  if◌then◌else◌, arith, ap,
}
use romio.Deps.Slabs.{SlabApi}

abbrev pub Slots : Type 0 → Type 0
Slots A = List (Option A)

module _ {A : Type 0} where
  abbrev pub count : Slots A → ℕ
  count [] = 0
  count (none ∷ s) = count s
  count (some a ∷ s) = suc (count s)

  abbrev pub slots : Slots A → ℕ
  slots [] = 0
  slots (o ∷ s) = suc (slots s)

  abbrev pub get : ℕ → Slots A → Option A
  get k [] = none
  get zero (o ∷ s) = o
  get (suc k) (o ∷ s) = get k s

  -- The key of the first vacant slot, or of the slot that is added.
  abbrev pub vacant : Slots A → ℕ
  vacant [] = 0
  vacant (none ∷ s) = 0
  vacant (some a ∷ s) = suc (vacant s)

  abbrev pub fill : A → Slots A → Slots A
  fill a [] = some a ∷ []
  fill a (none ∷ s) = some a ∷ s
  fill a (some b ∷ s) = some b ∷ fill a s

  abbrev pub remove : ℕ → Slots A → Slots A
  remove k [] = []
  remove zero (o ∷ s) = none ∷ s
  remove (suc k) (o ∷ s) = o ∷ remove k s

  abbrev pub modify : ℕ → (A → A) → Slots A → Slots A
  modify k f [] = []
  modify zero f (o ∷ s) = Option.map f o ∷ s
  modify (suc k) f (o ∷ s) = o ∷ modify k f s

  abbrev pub iter_from : ℕ → Slots A → List (ℕ × A)
  iter_from n [] = []
  iter_from n (none ∷ s) = iter_from (suc n) s
  iter_from n (some a ∷ s) = (n, a) ∷ iter_from (suc n) s

  pub get-vacant : (s : Slots A) → get (vacant s) s ≡ none
  get-vacant [] = refl
  get-vacant (none ∷ s) = refl
  get-vacant (some a ∷ s) = get-vacant s

  pub get-fill :
      (a : A) (s : Slots A) (j : ℕ) → get j (fill a s) ≡ (if vacant s == j then some a else get j s)
  get-fill a [] zero = ground arith
  get-fill a [] (suc j) = ground arith
  get-fill a (none ∷ s) zero = ground arith
  get-fill a (none ∷ s) (suc j) = ground arith
  get-fill a (some b ∷ s) zero = ground arith
  get-fill a (some b ∷ s) (suc j) = ground (arith, get-fill a s j)

  pub count-fill : (a : A) (s : Slots A) → count (fill a s) ≡ count s + 1
  count-fill a [] = refl
  count-fill a (none ∷ s) = omega arith
  count-fill a (some b ∷ s) = omega (arith, count-fill a s)

  pub vacant-slots : (a : A) (s : Slots A) → vacant s < slots (fill a s)
  vacant-slots a [] = omega arith
  vacant-slots a (none ∷ s) = omega arith
  vacant-slots a (some b ∷ s) = omega (arith, vacant-slots a s)

  pub slots-fill :
      (a : A) (s : Slots A) (n : ℕ) → slots s ≤ n → count s + 1 ≤ n → slots (fill a s) ≤ n
  slots-fill a [] n h k = omega arith
  slots-fill a (none ∷ s) n h k = omega arith
  slots-fill a (some b ∷ s) zero h k = absurd (omega arith)
  slots-fill a (some b ∷ s) (suc n) h k =
      omega (arith, slots-fill a s n (omega arith) (omega arith))

  pub get-remove :
      (k : ℕ) (s : Slots A) (j : ℕ) → get j (remove k s) ≡ (if k == j then none else get j s)
  get-remove k [] j = ground arith
  get-remove zero (o ∷ s) zero = ground arith
  get-remove zero (o ∷ s) (suc j) = ground arith
  get-remove (suc k) (o ∷ s) zero = ground arith
  get-remove (suc k) (o ∷ s) (suc j) = ground (arith, get-remove k s j)

  pub count-remove :
      (k : ℕ) (s : Slots A) (a : A) → get k s ≡ some a → count (remove k s) + 1 ≡ count s
  count-remove k [] a e = cc
  count-remove zero (none ∷ s) a e = cc
  count-remove zero (some b ∷ s) a e = omega arith
  count-remove (suc k) (none ∷ s) a e = count-remove k s a e
  count-remove (suc k) (some b ∷ s) a e = omega (arith, count-remove k s a e)

  pub slots-remove : (k : ℕ) (s : Slots A) → slots (remove k s) ≡ slots s
  slots-remove k [] = refl
  slots-remove zero (o ∷ s) = refl
  slots-remove (suc k) (o ∷ s) = ap suc (slots-remove k s)

  pub get-modify :
      (k : ℕ) (f : A → A) (s : Slots A) (j : ℕ)
      → get j (modify k f s) ≡ (if k == j then Option.map f (get j s) else get j s)
  get-modify k f [] j = ground arith
  get-modify zero f (o ∷ s) zero = ground arith
  get-modify zero f (o ∷ s) (suc j) = ground arith
  get-modify (suc k) f (o ∷ s) zero = ground arith
  get-modify (suc k) f (o ∷ s) (suc j) = ground (arith, get-modify k f s j)

  pub count-modify : (k : ℕ) (f : A → A) (s : Slots A) → count (modify k f s) ≡ count s
  count-modify k f [] = refl
  count-modify zero f (none ∷ s) = refl
  count-modify zero f (some a ∷ s) = refl
  count-modify (suc k) f (none ∷ s) = count-modify k f s
  count-modify (suc k) f (some a ∷ s) = ap suc (count-modify k f s)

  pub slots-modify : (k : ℕ) (f : A → A) (s : Slots A) → slots (modify k f s) ≡ slots s
  slots-modify k f [] = refl
  slots-modify zero f (o ∷ s) = refl
  slots-modify (suc k) f (o ∷ s) = ap suc (slots-modify k f s)

  abbrev pub Listed : ℕ → ℕ → A → Slots A → Type 0
  Listed n k a s = (before after : List (ℕ × A)) × (iter_from n s ≡ before ++ (k, a) ∷ after)

  pub iter_from-get :
      (n : ℕ) (s : Slots A) (k m : ℕ) (a : A) → get k s ≡ some a → n + k ≡ m → Listed n m a s
  iter_from-get n [] k m a e sum = cc
  iter_from-get n (none ∷ s) zero m a e sum = cc
  iter_from-get n (some b ∷ s) zero m a e sum = ([], iter_from (suc n) s, ground arith)
  iter_from-get n (none ∷ s) (suc k) m a e sum = iter_from-get (suc n) s k m a e (omega arith)
  iter_from-get n (some b ∷ s) (suc k) m a e sum =
      let (before, after, q) = iter_from-get (suc n) s k m a e (omega arith) in
      ((n, b) ∷ before, after, ap (◌∷◌ (n, b)) q)

abbrev pub slab_model : SlabApi
slab_model = record {
  Slab = Slots;
  empty_slab = [];
  len = count;
  slots = slots;
  get = get;
  insert = λ a s. (vacant s, fill a s);
  remove = remove;
  modify = modify;
  iter = iter_from 0;
  get-empty = λ k. refl;
  len-empty = refl;
  slots-empty = refl;
  insert_vacant = λ a s. get-vacant s;
  get-insert = get-fill;
  len-insert = count-fill;
  insert-slots = vacant-slots;
  slots-insert = slots-fill;
  get-remove = get-remove;
  len-remove = count-remove;
  slots-remove = slots-remove;
  get-modify = get-modify;
  len-modify = count-modify;
  slots-modify = slots-modify;
  iter-get = λ s k a e. iter_from-get 0 s k k a e (omega arith);
}
