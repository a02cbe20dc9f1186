-- ===== src/Reactor/Tokens/Packing.antt =====
-- src/reactor/mod.rs: the guard and the key of a token can be read back.
use romio.Base.{ℕ, ◌+◌, ◌*◌, ◌%◌, ◌/◌, refl, subst, ◌^◌, ◌≤◌, ◌<◌, ◌≡◌, ◌≢◌, arith}
use romio.Base.Bits.{bit_or-add, bit_and-low, bit_and-high}
use romio.Reactor.State.{token_shift, max_sources, token_wakeup}
use romio.Reactor.Tokens.{source_token, token_guard, token_key, next_guard}

-- A guard is a word with nothing in the bits of the key.
abbrev pub IsGuard : ℕ → Type 0
IsGuard g = (n : ℕ) × (g ≡ n * 2 ^ token_shift) × (n < 2 ^ 42)

pub source_token-add : (g k : ℕ) → IsGuard g → k ≤ max_sources → source_token g k ≡ g + k
unfolding source_token
source_token-add g k (n, e, h) le = rw e (bit_or-add 22 n k (omega arith))

pub token_key-source_token :
    (g k : ℕ) → IsGuard g → k ≤ max_sources → token_key (source_token g k) ≡ k
unfolding token_key
token_key-source_token g k (n, e, h) le =
    rw (source_token-add g k (n, e, h) le, e) (bit_and-low 22 n k (omega arith))

pub token_guard-source_token :
    (g k : ℕ) → IsGuard g → k ≤ max_sources → token_guard (source_token g k) ≡ g
unfolding token_guard
token_guard-source_token g k (n, e, h) le =
    rw (source_token-add g k (n, e, h) le, e)
      (bit_and-high 22 64 n k (omega arith) (omega arith) (omega arith))

pub next_guard-IsGuard : (g : ℕ) → IsGuard g → IsGuard (next_guard g)
unfolding next_guard
next_guard-IsGuard g (n, e, h) = ((n + 1) % 2 ^ 42, omega arith, omega arith)

pub zero-IsGuard : IsGuard 0
zero-IsGuard = (0, omega arith, omega arith)

-- A key below the limit never gives the token that wakes the reactor itself.
pub source_token-ne-wakeup :
    (g k : ℕ) → IsGuard g → k < max_sources → source_token g k ≢ token_wakeup
source_token-ne-wakeup g k v h = omega (arith, source_token-add g k v (omega arith))

-- The guard and the key of a token are those that it was made of, for a guard that is a
-- multiple of `2 ^ 22` below `2 ^ 64` and a key up to the limit.
pub token_roundtrip :
    (g k : ℕ)
    → IsGuard g
    → k ≤ max_sources
    → (token_key (source_token g k) ≡ k) × (token_guard (source_token g k) ≡ g)
token_roundtrip g k v le = (token_key-source_token g k v le, token_guard-source_token g k v le)

-- A word is the token of its parts.
source_token-fields :
    (q r : ℕ)
    → r < 2 ^ 22
    → q * 2 ^ 22 + r < 2 ^ 64
    → source_token (token_guard (q * 2 ^ 22 + r)) (token_key (q * 2 ^ 22 + r)) ≡ q * 2 ^ 22 + r
unfolding token_guard token_key
source_token-fields q r h fits =
    rw (bit_and-high 22 64 q r (omega arith) h fits, bit_and-low 22 q r h)
      (source_token-add (q * 2 ^ 22) r (q, refl, omega arith) (omega arith))

pub source_token-parts : (t : ℕ) → t < 2 ^ 64 → source_token (token_guard t) (token_key t) ≡ t
source_token-parts t h =
    let split : (t / 2 ^ 22) * 2 ^ 22 + t % 2 ^ 22 ≡ t = omega arith in
    subst (λ x. source_token (token_guard x) (token_key x) ≡ x) split
      (source_token-fields (t / 2 ^ 22) (t % 2 ^ 22) (omega arith) (omega arith))
