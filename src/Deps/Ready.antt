-- ===== src/Deps/Ready.antt =====
-- `mio::Ready` and `mio::unix::UnixReady`: sets of readiness flags, held in a `usize`.
use romio.Base.{ℕ, ◌<◌, ◌^◌, ◌≡◌, Bool, not, bit_and, bit_or, ◌==◌}
use romio.Base.Bits.{bit_not, usize_bits}

pub record ReadyApi : Type 1 where
  pub Ready : Type 0
  -- `Ready::empty()`, `readable()`, `writable()`, `all()`, and `UnixReady::hup().into()`
  pub empty : Ready
  pub readable : Ready
  pub writable : Ready
  pub all : Ready
  pub unix_hup : Ready
  -- `a | b`, `a & b`, `a - b`, `!a`
  pub ready_or : Ready → Ready → Ready
  pub ready_and : Ready → Ready → Ready
  pub ready_sub : Ready → Ready → Ready
  pub ready_not : Ready → Ready
  pub is_empty : Ready → Bool
  pub is_writable : Ready → Bool
  -- `UnixReady::from(r).is_hup()`
  pub unix_is_hup : Ready → Bool
  pub as_usize : Ready → ℕ
  pub from_usize : ℕ → Ready
  -- The flags of a set are the bits of its `usize`, and the operations act on each flag.
  pub as_usize_lt : (r : Ready) → as_usize r < 2 ^ usize_bits
  pub as_usize-from_usize : (n : ℕ) → n < 2 ^ usize_bits → as_usize (from_usize n) ≡ n
  pub as_usize-empty : as_usize empty ≡ 0
  pub as_usize-or : (a b : Ready) → as_usize (ready_or a b) ≡ bit_or (as_usize a) (as_usize b)
  pub as_usize-and : (a b : Ready) → as_usize (ready_and a b) ≡ bit_and (as_usize a) (as_usize b)
  pub as_usize-sub :
      (a b : Ready) → as_usize (ready_sub a b) ≡ bit_and (as_usize a) (bit_not (as_usize b))
  pub as_usize-not : (a : Ready) → as_usize (ready_not a) ≡ bit_not (as_usize a)
  pub is_empty_lem : (r : Ready) → is_empty r ≡ (as_usize r == 0)
  pub is_writable_lem :
      (r : Ready) → is_writable r ≡ not (bit_and (as_usize r) (as_usize writable) == 0)
  pub unix_is_hup_lem :
      (r : Ready) → unix_is_hup r ≡ not (bit_and (as_usize r) (as_usize unix_hup) == 0)
  -- `readable`, `writable` and `hup` are different flags, and `all` holds each of them.
  pub writable-hup : bit_and (as_usize writable) (as_usize unix_hup) ≡ 0
  pub readable-writable : bit_and (as_usize readable) (as_usize writable) ≡ 0
  pub readable-hup : bit_and (as_usize readable) (as_usize unix_hup) ≡ 0
  pub all-readable : bit_and (as_usize readable) (as_usize all) ≡ as_usize readable
  pub all-writable : bit_and (as_usize writable) (as_usize all) ≡ as_usize writable
  pub all-hup : bit_and (as_usize unix_hup) (as_usize all) ≡ as_usize unix_hup
