-- ===== src/Base/Bits/Fields.antt =====
-- Fields packed by `|` and taken apart by masks, as arithmetic, at every width.
use native.Mathlib.Nat.{pow-suc, one-le-pow}
use Prim.Native.Nat.{ℕ, zero, suc, ◌+◌, ◌-◌, ◌*◌, ◌/◌, ◌^◌, ◌≤◌, ◌<◌, bit_and, bit_or}
use mathlib.Core.Path.{◌≡◌, refl, ap}
use native.Mathlib.Omega.{arith}
use romio.Base.Bits.Step.{bit_and_step, bit_or_step}
use romio.Base.Bits.Words.{complement}

bit_or-zero_fuel : (n a : ℕ) → a ≤ n → bit_or a 0 ≡ a
bit_or-zero_fuel zero a h = let e : a ≡ 0 = omega arith in rw e
bit_or-zero_fuel (suc n) zero h = refl
bit_or-zero_fuel (suc n) (suc a) h =
    omega (arith, bit_or_step (suc a) 0, bit_or-zero_fuel n (suc a / 2) (omega arith))

bit_and-zero_fuel : (n a : ℕ) → a ≤ n → bit_and a 0 ≡ 0
bit_and-zero_fuel zero a h = let e : a ≡ 0 = omega arith in rw e
bit_and-zero_fuel (suc n) zero h = refl
bit_and-zero_fuel (suc n) (suc a) h =
    omega (arith, bit_and_step (suc a) 0, bit_and-zero_fuel n (suc a / 2) (omega arith))

double_field : (q k : ℕ) → q * 2 ^ suc k ≡ 2 * (q * 2 ^ k)
double_field q k = omega (arith, ap (λ (t : ℕ). q * t) (pow-suc 2 k))

-- A field above `k` bits, joined to one that fits them.
pub bit_or-add : (k q r : ℕ) → r < 2 ^ k → bit_or (q * 2 ^ k) r ≡ q * 2 ^ k + r
bit_or-add zero q r h = let e : r ≡ 0 = omega arith in rw e (ground (arith, bit_or-zero_fuel q q))
bit_or-add (suc k) q r h =
    ground
      (arith, bit_or_step (q * 2 ^ suc k) r, double_field q k, pow-suc 2 k, bit_or-add k q (r / 2))

-- The lower field, by the mask of its bits.
pub bit_and-low : (k q r : ℕ) → r < 2 ^ k → bit_and (q * 2 ^ k + r) (2 ^ k - 1) ≡ r
bit_and-low zero q r h = omega (arith, bit_and-zero_fuel (q * 1 + r) (q * 1 + r) (omega arith))
bit_and-low (suc k) q r h = ground (
  arith,
  bit_and_step (q * 2 ^ suc k + r) (2 ^ suc k - 1),
  double_field q k,
  pow-suc 2 k,
  one-le-pow k 2,
  bit_and-low k q (r / 2),
)

bit_and-all : (w n : ℕ) → n < 2 ^ w → bit_and n (2 ^ w - 1) ≡ n
bit_and-all w n h = let e : 0 * 2 ^ w + n ≡ n = omega arith in rw e at (bit_and-low w 0 n h)

-- The upper field, by the mask of all other bits of the word.
pub bit_and-high :
    (k w q r : ℕ)
    → k ≤ w
    → r < 2 ^ k
    → q * 2 ^ k + r < 2 ^ w
    → bit_and (q * 2 ^ k + r) (complement w (2 ^ k - 1)) ≡ q * 2 ^ k
unfolding complement
bit_and-high zero w q r h fits lt =
    let e : q * 1 + r ≡ q = omega arith in
    let e' : q * 1 ≡ q = omega arith in
    let m : 2 ^ w - 1 - 0 ≡ 2 ^ w - 1 = omega arith in
    rw (e, e', complement, m) (bit_and-all w q (omega arith))
bit_and-high (suc k) zero q r h fits lt = absurd (omega arith)
bit_and-high (suc k) (suc w) q r h fits lt = ground (
  arith,
  bit_and_step (q * 2 ^ suc k + r) (2 ^ suc w - 1 - (2 ^ suc k - 1)),
  double_field q k,
  pow-suc 2 k,
  pow-suc 2 w,
  one-le-pow k 2,
  one-le-pow w 2,
  bit_and-high k w q (r / 2) (omega arith),
)
