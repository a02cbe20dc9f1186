-- ===== src/Reactor/LiveTokens.antt =====
-- src/reactor/mod.rs: the tokens that the reactor's sources are registered under with mio.
use romio.Base.{ℕ, ◌≤◌, ◌<◌, ◌^◌, ◌≡◌, ◌≢◌, arith, some, ok, sym, ◌∙◌, ap}
use romio.Base.Bits.{usize_bits}
use romio.Deps.{Deps}
use romio.Reactor.State.{ScheduledIo, Inner, max_sources, token_wakeup}
use romio.Reactor.Platform.{Platform}
use romio.Reactor.Tokens.{source_token, token_key}
use romio.Reactor.Tokens.Packing.{
  IsGuard, source_token-add, source_token-ne-wakeup, token_key-source_token,
}
use romio.Reactor.Turn
use romio.Reactor.History.{Reach, history-IsValid}

source_token-lt : (g k : ℕ) → IsGuard g → k < max_sources → source_token g k < 2 ^ usize_bits
source_token-lt g k (n, e, h) lt = omega (arith, source_token-add g k (n, e, h) (omega arith), e)

source_token-key :
    (g g' k k' : ℕ)
    → IsGuard g
    → IsGuard g'
    → k < max_sources
    → k' < max_sources
    → source_token g k ≡ source_token g' k'
    → k ≡ k'
source_token-key g g' k k' v v' lt lt' e =
    sym (token_key-source_token g k v (omega arith))
    ∙ ap token_key e
    ∙ token_key-source_token g' k' v' (omega arith)

module _ (d : Deps) (p : Platform) where
  open d use {get, len}

  -- After any history of a new reactor, the token of every source in its table fits a `usize` and is
  -- not the token of the reactor's own wake-up; two sources with one token have one key; and there
  -- are at most `max_sources` sources.
  pub live_tokens :
      (os os' : d.Os) (start inner : Inner d) (k k' : ℕ) (io io' : ScheduledIo d)
      → Turn.new d os ≡ (ok start, os')
      → Reach d p start inner
      → get k inner.io_dispatch ≡ some io
      → get k' inner.io_dispatch ≡ some io'
      → (source_token io.aba_guard k < 2 ^ usize_bits)
        × (source_token io.aba_guard k ≢ token_wakeup)
        × (source_token io.aba_guard k ≡ source_token io'.aba_guard k' → k ≡ k')
        × (len inner.io_dispatch ≤ max_sources)
  live_tokens os os' start inner k k' io io' made r there there' =
      let v = (history-IsValid d p os os' start inner made r).0 in
      let (lt, entry) = v.entries k io there in
      let (lt', entry') = v.entries k' io' there' in
      (
        source_token-lt io.aba_guard k entry.guard lt,
        source_token-ne-wakeup io.aba_guard k entry.guard lt,
        source_token-key io.aba_guard io'.aba_guard k k' entry.guard entry'.guard lt lt',
        v.held,
      )
