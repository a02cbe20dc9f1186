-- ===== src/Reactor/ShardedRwlock/Counts.antt =====
-- Counting in lists of numbers, and the bound of `&`.
use romio.Base.{
  ℕ, zero, suc, ◌+◌, ◌/◌, ◌≤◌, ◌≡◌, refl, List, [], ◌∷◌, ◌++◌, bit_and, arith, ltb, ◌==◌,
  if◌then◌else◌,
}
use romio.Base.Bits.{bit_and_step}
use Prim.Native.Nat.{bit_and-bitwise}

-- How often `j` is in the list, and how many of its numbers are above `j`.
unfoldable pub count : ℕ → List ℕ → ℕ
count j [] = 0
count j (k ∷ ks) = (if k == j then 1 else 0) + count j ks

unfoldable pub count_above : ℕ → List ℕ → ℕ
count_above j [] = 0
count_above j (k ∷ ks) = (if ltb j k then 1 else 0) + count_above j ks

pub count-middle : (j k : ℕ) (xs ys : List ℕ) → count j (xs ++ k ∷ ys) ≡ count j (k ∷ (xs ++ ys))
unfolding count
count-middle j k [] ys = refl
count-middle j k (x ∷ xs) ys = omega (arith, count-middle j k xs ys)

pub count_above-middle :
    (j k : ℕ) (xs ys : List ℕ) → count_above j (xs ++ k ∷ ys) ≡ count_above j (k ∷ (xs ++ ys))
unfolding count_above
count_above-middle j k [] ys = refl
count_above-middle j k (x ∷ xs) ys = omega (arith, count_above-middle j k xs ys)

bit_and_le_fuel : (fuel a b : ℕ) → a ≤ fuel → bit_and a b ≤ b
bit_and_le_fuel fuel zero b h = omega (arith, bit_and-bitwise 0 b)
bit_and_le_fuel zero (suc a) b h = absurd (omega arith)
bit_and_le_fuel (suc fuel) (suc a) b h =
    omega (arith, bit_and_step (suc a) b, bit_and_le_fuel fuel (suc a / 2) (b / 2) (omega arith))

pub bit_and_le : (a b : ℕ) → bit_and a b ≤ b
bit_and_le a b = bit_and_le_fuel a a b (omega arith)
