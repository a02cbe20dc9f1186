-- ===== src/Examples/Model/Flags.antt =====
-- `mio::Ready` as a 64-bit mask: readable 1, writable 2, error 4, hup 8.
use romio.Base.{ℕ, ◌%◌, ◌^◌, ◌<◌, ◌≡◌, refl, not, bit_and, bit_or, ◌==◌, arith}
use romio.Base.Bits.{bit_not, usize_bits, complement-lt, bit_and-lt, bit_or-lt}
use romio.Deps.Ready.{ReadyApi}

abbrev pub word : ℕ → ℕ
word n = n % 18446744073709551616

pub word-lt : (n : ℕ) → word n < 2 ^ usize_bits
word-lt n = omega arith

pub word_lem : (n : ℕ) → n < 2 ^ usize_bits → word n ≡ n
word_lem n h = omega arith

pub word-and : (a b : ℕ) → word (bit_and (word a) (word b)) ≡ bit_and (word a) (word b)
word-and a b = word_lem _ (bit_and-lt usize_bits (word a) (word b) (word-lt a))

pub word-or : (a b : ℕ) → word (bit_or (word a) (word b)) ≡ bit_or (word a) (word b)
word-or a b = word_lem _ (bit_or-lt usize_bits (word a) (word b) (word-lt a) (word-lt b))

pub word-sub :
    (a b : ℕ) → word (bit_and (word a) (bit_not (word b))) ≡ bit_and (word a) (bit_not (word b))
word-sub a b = word_lem _ (bit_and-lt usize_bits (word a) _ (word-lt a))

pub word-not : (a : ℕ) → word (bit_not (word a)) ≡ bit_not (word a)
word-not a = word_lem _ (complement-lt usize_bits (word a))

abbrev pub flags_model : ReadyApi
flags_model = record {
  Ready = ℕ;
  empty = 0;
  readable = 1;
  writable = 2;
  all = 15;
  unix_hup = 8;
  ready_or = λ a b. bit_or (word a) (word b);
  ready_and = λ a b. bit_and (word a) (word b);
  ready_sub = λ a b. bit_and (word a) (bit_not (word b));
  ready_not = λ a. bit_not (word a);
  is_empty = λ r. word r == 0;
  is_writable = λ r. not (bit_and (word r) 2 == 0);
  unix_is_hup = λ r. not (bit_and (word r) 8 == 0);
  as_usize = word;
  from_usize = λ n. n;
  as_usize_lt = word-lt;
  as_usize-from_usize = word_lem;
  as_usize-empty = refl;
  as_usize-or = word-or;
  as_usize-and = word-and;
  as_usize-sub = word-sub;
  as_usize-not = word-not;
  is_empty_lem = λ r. refl;
  is_writable_lem = λ r. refl;
  unix_is_hup_lem = λ r. refl;
  writable-hup = refl;
  readable-writable = refl;
  readable-hup = refl;
  all-readable = refl;
  all-writable = refl;
  all-hup = refl;
}
