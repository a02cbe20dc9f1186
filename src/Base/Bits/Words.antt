-- ===== src/Base/Bits/Words.antt =====
-- Single bits of a word of 64 bits, or of any width, under `&`, `|` and `!`.

use romio.Base.Bits.Step.{bit_or_step, bit_and_step}
use native.Mathlib.Nat.{pow-suc, one-le-pow}
use Prim.Native.Nat.{ℕ, zero, suc, ◌-◌, ◌/◌, ◌%◌, ◌^◌, ◌≤◌, ◌<◌, bit_and, bit_or, bit_and-bitwise}
use mathlib.Core.Path.{◌≡◌, refl}
use mathlib.Core.Bool.{Bool, false, not, ◌&&◌, ◌||◌}
use mathlib.Core.Logic.{inl, inr}
use native.Mathlib.Omega.{arith}
use romio.Base.Tests.{ltb, ◌==◌, Bool-cases}

abbrev pub usize_bits : ℕ
usize_bits = 64

-- `!n` on a word of `w` bits.
unfoldable pub complement : ℕ → ℕ → ℕ
complement w n = 2 ^ w - 1 - n

abbrev pub bit_not : ℕ → ℕ
bit_not n = complement usize_bits n

pub complement-lt : (w n : ℕ) → complement w n < 2 ^ w
unfolding complement
complement-lt w n = omega (arith, one-le-pow w 2)

-- Bit `i` of `n`.
unfoldable pub test_bit : ℕ → ℕ → Bool
test_bit n zero = n % 2 == 1
test_bit n (suc i) = test_bit (n / 2) i

half-bit_and : (a b : ℕ) → bit_and a b / 2 ≡ bit_and (a / 2) (b / 2)
half-bit_and a b = omega (arith, bit_and_step a b)

half-bit_or : (a b : ℕ) → bit_or a b / 2 ≡ bit_or (a / 2) (b / 2)
half-bit_or a b = omega (arith, bit_or_step a b)

pub test_bit-bit_and : (i a b : ℕ) → test_bit (bit_and a b) i ≡ (test_bit a i && test_bit b i)
unfolding test_bit
test_bit-bit_and zero a b = ground (arith, bit_and_step a b)
test_bit-bit_and (suc i) a b = rw (half-bit_and a b) (test_bit-bit_and i (a / 2) (b / 2))

pub test_bit-bit_or : (i a b : ℕ) → test_bit (bit_or a b) i ≡ (test_bit a i || test_bit b i)
unfolding test_bit
test_bit-bit_or zero a b = ground (arith, bit_or_step a b)
test_bit-bit_or (suc i) a b = rw (half-bit_or a b) (test_bit-bit_or i (a / 2) (b / 2))

pub test_bit-zero : (i : ℕ) → test_bit 0 i ≡ false
unfolding test_bit
test_bit-zero zero = refl
test_bit-zero (suc i) = test_bit-zero i

-- A bit from the width on is off.
pub test_bit_above : (w i n : ℕ) → n < 2 ^ w → w ≤ i → test_bit n i ≡ false
unfolding test_bit
test_bit_above zero i zero h le = test_bit-zero i
test_bit_above zero i (suc n) h le = absurd (omega arith)
test_bit_above (suc w) zero n h le = absurd (omega arith)
test_bit_above (suc w) (suc i) n h le =
    test_bit_above w i (n / 2) (omega (arith, pow-suc 2 w)) (omega arith)

pub test_bit-complement :
    (w i n : ℕ) → n < 2 ^ w → i < w → test_bit (complement w n) i ≡ not (test_bit n i)
unfolding test_bit complement
test_bit-complement zero i n h lt = absurd (omega arith)
test_bit-complement (suc w) zero n h lt = ground (arith, pow-suc 2 w)
test_bit-complement (suc w) (suc i) n h lt =
    let e : (2 ^ suc w - 1 - n) / 2 ≡ 2 ^ w - 1 - n / 2 = omega (arith, pow-suc 2 w) in
    rw e (test_bit-complement w i (n / 2) (omega (arith, pow-suc 2 w)) (omega arith))

-- `a & !b`: the bits of `a` that `b` lacks.
pub test_bit-and_not :
    (w i a b : ℕ)
    → a < 2 ^ w
    → b < 2 ^ w
    → test_bit (bit_and a (complement w b)) i ≡ (test_bit a i && not (test_bit b i))
test_bit-and_not w i a b ha hb = elim (Bool-cases (ltb i w)) [
  | inl lt ↦ ground (arith, test_bit-bit_and i a (complement w b), test_bit-complement w i b hb)
  | inr ge ↦ ground (arith, test_bit-bit_and i a (complement w b), test_bit_above w i a ha)
]

-- A number is 0 if all its bits are off.
zero_of_bits_fuel : (k n : ℕ) → n ≤ k → ((i : ℕ) → test_bit n i ≡ false) → n ≡ 0
unfolding test_bit
zero_of_bits_fuel zero n h off = omega arith
zero_of_bits_fuel (suc k) zero h off = refl
zero_of_bits_fuel (suc k) (suc n) h off =
    ground (arith, zero_of_bits_fuel k (suc n / 2) (omega arith) (λ i. off (suc i)), off 0)

pub zero_of_bits : (n : ℕ) → ((i : ℕ) → test_bit n i ≡ false) → n ≡ 0
zero_of_bits n off = zero_of_bits_fuel n n (omega arith) off

bit_and_zero : (b : ℕ) → bit_and 0 b ≡ 0
bit_and_zero b = bit_and-bitwise 0 b

pub bit_and-lt : (w a b : ℕ) → a < 2 ^ w → bit_and a b < 2 ^ w
bit_and-lt zero zero b h = omega (arith, bit_and_zero b)
bit_and-lt zero (suc a) b h = absurd (omega arith)
bit_and-lt (suc w) a b h = omega (
  arith,
  pow-suc 2 w,
  bit_and_step a b,
  bit_and-lt w (a / 2) (b / 2) (omega (arith, pow-suc 2 w)),
)

pub bit_or-lt : (w a b : ℕ) → a < 2 ^ w → b < 2 ^ w → bit_or a b < 2 ^ w
bit_or-lt zero zero zero h k = refl_lt
  where
    refl_lt : bit_or 0 0 < 2 ^ 0
    refl_lt = omega arith
bit_or-lt zero zero (suc b) h k = absurd (omega arith)
bit_or-lt zero (suc a) b h k = absurd (omega arith)
bit_or-lt (suc w) a b h k = omega (
  arith,
  pow-suc 2 w,
  bit_or_step a b,
  bit_or-lt w (a / 2) (b / 2) (omega (arith, pow-suc 2 w)) (omega (arith, pow-suc 2 w)),
)
