-- ===== src/Base/Io.antt =====
-- The parts of Rust's standard library that the sources use: `std::io::Error`, `io::Result`,
-- `std::task::Poll`, wakers, and a panic as an outcome.
use Prim.Native.Nat.{ℕ}
use mathlib.Core.Path.{◌≡◌, refl}
use mathlib.Core.Logic.{◌⊎◌, inl, inr}
use Prim.Native.String.{String}

-- `io::ErrorKind`: the two kinds that the sources name, and every other one under a number.
pub data ErrorKind : Type 0 where
  would_block : ErrorKind
  other : ErrorKind
  kind : ℕ → ErrorKind

pub record IoError : Type 0 where
  pub kind : ErrorKind
  pub message : String

pub data IoResult {ℓ} (A : Type ℓ) : Type ℓ where
  ok : A → IoResult A
  err : IoError → IoResult A

pub IoResult-cases {ℓ} :
    {A : Type ℓ} (r : IoResult A) → ((a : A) × (r ≡ ok a)) ⊎ ((e : IoError) × (r ≡ err e))
IoResult-cases (ok a) = inl (a, refl)
IoResult-cases (err e) = inr (e, refl)

-- `io::Error::new(io::ErrorKind::Other, message)`
abbrev pub other_error : String → IoError
other_error s = record { kind = ErrorKind.other; message = s }

pub data Poll {ℓ} (A : Type ℓ) : Type ℓ where
  ready : A → Poll A
  pending : Poll A

-- A waker, by the identity of the task that it wakes.
abbrev pub Waker : Type 0
Waker = ℕ

-- A computation that may panic (`unwrap`, `unreachable!`, indexing, `assert!`).
pub data Outcome {ℓ} (A : Type ℓ) : Type ℓ where
  done : A → Outcome A
  panics : Outcome A

-- Code that reads and writes a state of type S, and may panic.
abbrev pub Act : Type 0 → Type 0 → Type 0
Act S A = S → Outcome (A × S)

abbrev pub pure : {S A : Type 0} → A → Act S A
pure a s = done (a, s)

abbrev pub panic : {S A : Type 0} → Act S A
panic s = panics

infixl 5 ◌>>=◌ ◌>>◌
abbrev pub ◌>>=◌ : {S A B : Type 0} → Act S A → (A → Act S B) → Act S B
◌>>=◌ m f s = elim (m s) [ done (a, s') ↦ f a s' | panics ↦ panics ]

abbrev pub ◌>>◌ : {S B : Type 0} → Act S (Unit {0}) → Act S B → Act S B
m >> k = m >>= λ _. k

pub Outcome-cases {ℓ} : {A : Type ℓ} → (o : Outcome A) → (o ≡ panics) ⊎ ((a : A) × (o ≡ done a))
Outcome-cases panics = inl refl
Outcome-cases (done a) = inr (a, refl)
