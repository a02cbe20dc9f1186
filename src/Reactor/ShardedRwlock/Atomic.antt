-- ===== src/Reactor/ShardedRwlock/Atomic.antt =====
-- A reader-writer lock as its users see it: readers or one writer, who take and give it up at once.
use romio.Base.{ℕ, suc, ◌<◌, ◌≡◌, refl, ◌⊎◌, Bool, true, false, List, [], ◌∷◌}
use romio.Reactor.ShardedRwlock.Value.{
  Label, silent, read_locked, read_unlocked, write_locked, write_unlocked, loaded, stored,
}

pub record Atomic {ℓ} (T : Type ℓ) : Type ℓ where
  pub readers : ℕ
  pub writing : Bool
  pub value : T

abbrev pub unlocked {ℓ} : {T : Type ℓ} → T → Atomic T
unlocked value = record { readers = 0; writing = false; value = value }

pub data Allows {ℓ} {T : Type ℓ} (a : Atomic T) : Label T → Atomic T → Type ℓ where
  idles : Allows a silent a
  locks_read : a.writing ≡ false → Allows a read_locked (record a { readers = suc a.readers })
  unlocks_read :
      (readers : ℕ)
      → a.readers ≡ suc readers
      → Allows a read_unlocked (record a { readers = readers })
  locks_write :
      a.readers ≡ 0 → a.writing ≡ false → Allows a write_locked (record a { writing = true })
  unlocks_write : a.writing ≡ true → Allows a write_unlocked (record a { writing = false })
  loads : (0 < a.readers) ⊎ (a.writing ≡ true) → Allows a (loaded a.value) a
  stores : (value : T) → a.writing ≡ true → Allows a (stored value) (record a { value = value })

-- A history of such a lock, the latest first.
pub data History {ℓ} {T : Type ℓ} (s : Atomic T) : List (Label T) → Atomic T → Type ℓ where
  here : History s [] s
  next :
      {labels : List (Label T)} {l : Label T} {t u : Atomic T}
      → History s labels t
      → Allows t l u
      → History s (l ∷ labels) u

-- The value stored last, if any.
unfoldable pub last_stored {ℓ} : {T : Type ℓ} → T → List (Label T) → T
last_stored value [] = value
last_stored value (stored new_value ∷ labels) = new_value
last_stored value (silent ∷ labels) = last_stored value labels
last_stored value (read_locked ∷ labels) = last_stored value labels
last_stored value (read_unlocked ∷ labels) = last_stored value labels
last_stored value (write_locked ∷ labels) = last_stored value labels
last_stored value (write_unlocked ∷ labels) = last_stored value labels
last_stored value (loaded seen ∷ labels) = last_stored value labels

pub value-last_stored {ℓ} :
    {T : Type ℓ} (value : T) {labels : List (Label T)} {a : Atomic T}
    → History (unlocked value) labels a
    → a.value ≡ last_stored value labels
unfolding last_stored
value-last_stored value here = refl
value-last_stored value (next h idles) = value-last_stored value h
value-last_stored value (next h (locks_read w)) = value-last_stored value h
value-last_stored value (next h (unlocks_read n e)) = value-last_stored value h
value-last_stored value (next h (locks_write e w)) = value-last_stored value h
value-last_stored value (next h (unlocks_write w)) = value-last_stored value h
value-last_stored value (next h (loads w)) = value-last_stored value h
value-last_stored value (next h (stores v w)) = refl
