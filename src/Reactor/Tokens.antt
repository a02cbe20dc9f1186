-- ===== src/Reactor/Tokens.antt =====
-- src/reactor/mod.rs: a `mio::Token` packs the ABA guard of a source above its key.
pub mod Packing
use romio.Base.{ℕ, ◌+◌, ◌%◌, ◌^◌, bit_and, bit_or}
use romio.Base.Bits.{bit_not, usize_bits}
use romio.Reactor.State.{token_shift, max_sources}

-- `mio::Token(aba_guard | key)` in `Inner::add_source`
unfoldable pub source_token : ℕ → ℕ → ℕ
source_token aba_guard key = bit_or aba_guard key

-- `token.0 & !MAX_SOURCES` and `token.0 & MAX_SOURCES` in `Reactor::dispatch`
unfoldable pub token_guard : ℕ → ℕ
token_guard token = bit_and token (bit_not max_sources)

unfoldable pub token_key : ℕ → ℕ
token_key token = bit_and token max_sources

-- `self.next_aba_guard.fetch_add(1 << TOKEN_SHIFT, Relaxed)`
unfoldable pub next_guard : ℕ → ℕ
next_guard g = (g + 2 ^ token_shift) % 2 ^ usize_bits
