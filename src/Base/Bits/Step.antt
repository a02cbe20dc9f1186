-- ===== src/Base/Bits/Step.antt =====
-- Halving the operands of `&` and `|`: the lowest digit of the result, and all the others.
use Prim.Native.Nat.{
  ℕ, zero, suc, ◌+◌, ◌*◌, ◌/◌, ◌%◌, ◌≤◌, min, max, digits, bitwise, bit_and, bit_or,
  bit_and-bitwise, bit_or-bitwise,
}
use mathlib.Core.Path.{◌≡◌, refl}
use native.Mathlib.Omega.{arith}

-- The recursion that defines both takes `fuel`; any from the left operand on gives the same. `top`
-- bounds the fuel of all the calls below.
enough_fuel :
    (last : ℕ → ℕ) (digit : ℕ → ℕ → ℕ) (top fuel left right : ℕ)
    → fuel ≤ top
    → left ≤ fuel
    → digits last digit fuel left right ≡ bitwise last digit left right
enough_fuel last digit top zero zero right below reach = refl
enough_fuel last digit top (suc fuel) zero right below reach = refl
enough_fuel last digit top zero (suc left) right below reach = absurd (omega arith)
enough_fuel last digit zero (suc fuel) (suc left) right below reach = absurd (omega arith)
enough_fuel last digit (suc top) (suc fuel) (suc left) right below reach =
    let half : ℕ = suc left / 2 in
    omega (
      arith,
      enough_fuel last digit top fuel half (right / 2) (omega arith) (omega arith),
      enough_fuel last digit top left half (right / 2) (omega arith) (omega arith),
    )

halves :
    (last : ℕ → ℕ) (digit : ℕ → ℕ → ℕ) (left right : ℕ)
    → bitwise last digit (suc left) right
      ≡ 2 * bitwise last digit (suc left / 2) (right / 2) + digit (suc left % 2) (right % 2)
halves last digit left right =
    omega (
      arith,
      enough_fuel last digit left left (suc left / 2) (right / 2) (omega arith) (omega arith),
    )

pub bit_and_step :
    (left right : ℕ)
    → bit_and left right ≡ 2 * bit_and (left / 2) (right / 2) + min (left % 2) (right % 2)
bit_and_step zero right = simp bit_and-bitwise (omega arith)
bit_and_step (suc left) right = simp bit_and-bitwise (halves (λ n. 0) min left right)

pub bit_or_step :
    (left right : ℕ)
    → bit_or left right ≡ 2 * bit_or (left / 2) (right / 2) + max (left % 2) (right % 2)
bit_or_step zero right = simp bit_or-bitwise (omega arith)
bit_or_step (suc left) right = simp bit_or-bitwise (halves (λ n. n) max left right)
