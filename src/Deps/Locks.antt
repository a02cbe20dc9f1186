-- ===== src/Deps/Locks.antt =====
-- `parking_lot::RwLock<()>`: a number of readers or at most one writer. A call that would block is
-- one that is refused now and tried again later.
use romio.Base.{ℕ, suc, ◌<◌, ◌≡◌, Option, some}

pub record LockApi : Type 1 where
  pub Lock : Type 0
  pub new_lock : Lock
  pub readers : Lock → ℕ
  pub writers : Lock → ℕ
  pub try_read : Lock → Option Lock
  pub try_write : Lock → Option Lock
  pub unlock_read : Lock → Lock
  pub force_unlock_write : Lock → Lock
  pub new-free : (readers new_lock ≡ 0) × (writers new_lock ≡ 0)
  pub exclusive : (l : Lock) → 0 < writers l → (writers l ≡ 1) × (readers l ≡ 0)
  pub read-granted :
      (l l' : Lock)
      → try_read l ≡ some l'
      → (readers l' ≡ suc (readers l)) × (writers l' ≡ writers l)
  pub write-granted :
      (l l' : Lock)
      → try_write l ≡ some l'
      → (readers l' ≡ readers l) × (writers l' ≡ suc (writers l))
  pub write-free :
      (l : Lock) → readers l ≡ 0 → writers l ≡ 0 → (l' : Lock) × (try_write l ≡ some l')
  pub read-released :
      (l : Lock)
      → 0 < readers l
      → (suc (readers (unlock_read l)) ≡ readers l) × (writers (unlock_read l) ≡ writers l)
  pub write-released :
      (l : Lock)
      → 0 < writers l
      → (readers (force_unlock_write l) ≡ readers l)
        × (suc (writers (force_unlock_write l)) ≡ writers l)
