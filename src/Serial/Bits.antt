-- ===== src/Serial/Bits.antt =====
-- How a word bit vector is saved (src/bitvector/word_bitvector.cpp).
use succinct_filesystem.Base.{
  ℕ, zero, suc, ◌+◌, ◌*◌, ◌/◌, ◌^◌, ◌<◌, ◌≡◌, refl, ap, List, [], ◌∷◌, ◌++◌, Option, some, ◌>>=◌,
  arith,
}
use mathlib.Core.List.{append_assoc}
use succinct_filesystem.Base.Seq.{length, take, length-append}
use succinct_filesystem.BitVector.Word.{WordBitVector}
use succinct_filesystem.Serial.Format.{
  Format, All, to_bytes, from_bytes, from_bytes-to_bytes, length-to_bytes, write_all, read_all,
  size_all, length-write_all, read_all-write_all,
}

pub word_back :
    (n : ℕ) (rest : List ℕ) → n < 2 ^ 64 → from_bytes 8 (to_bytes 8 n ++ rest) ≡ some (n, rest)
word_back n rest h = from_bytes-to_bytes 8 n rest h

pub length-word : (n : ℕ) → n < 2 ^ 64 → length (to_bytes 8 n) ≡ 8
length-word n h = length-to_bytes 8 n

-- A size_t.
abbrev pub word_format : Format ℕ
word_format = record {
  IsValid = λ n. n < 2 ^ 64;
  serialize = to_bytes 8;
  deserialize = from_bytes 8;
  get_serialized_size = λ n. 8;
  length-serialize = length-word;
  deserialize-serialize = word_back;
}

-- No more words than the bits need, each of 64 bits.
pub record IsWords (b : WordBitVector) : Type 0 where
  pub needed : length b.words ≡ (b.num_bits + 63) / 64
  pub few : b.num_bits < 2 ^ 64
  pub small : All (λ n. n < 2 ^ 64) b.words

pub serialize_words : WordBitVector → List ℕ
serialize_words b =
    to_bytes 8 b.num_bits ++ write_all word_format (take ((b.num_bits + 63) / 64) b.words)

pub deserialize_words : List ℕ → Option (WordBitVector × List ℕ)
deserialize_words bytes = from_bytes 8 bytes >>= λ (n : ℕ × List ℕ).
    read_all word_format ((n.0 + 63) / 64) n.1 >>= λ (r : List ℕ × List ℕ).
    some (record { words = r.0; num_bits = n.0 }, r.1)

pub size_words : WordBitVector → ℕ
size_words b = 8 + (b.num_bits + 63) / 64 * 8

take_whole : (n : ℕ) (xs : List ℕ) → length xs ≡ n → take n xs ≡ xs
take_whole zero [] e = refl
take_whole zero (x ∷ xs) e = absurd (omega (arith, e))
take_whole (suc n) [] e = absurd (omega (arith, e))
take_whole (suc n) (x ∷ xs) e = ap (λ t. x ∷ t) (take_whole n xs (omega (arith, e)))

size_all-word : (xs : List ℕ) → size_all word_format xs ≡ length xs * 8
unfolding size_all
size_all-word [] = omega arith
size_all-word (x ∷ xs) = omega (arith, size_all-word xs)

pub length-serialize_words :
    (b : WordBitVector) → IsWords b → length (serialize_words b) ≡ size_words b
unfolding serialize_words size_words
length-serialize_words b v = rw (take_whole ((b.num_bits + 63) / 64) b.words v.needed) (
    omega (
      arith,
      length-append (to_bytes 8 b.num_bits) (write_all word_format b.words),
      length-to_bytes 8 b.num_bits,
      length-write_all word_format b.words v.small,
      size_all-word b.words,
      v.needed,
    ))

-- A word bit vector with no more words than it needs is read back from the bytes that it was saved
-- as, whatever stands behind them, and what stands behind them is left.
pub words_lem :
    (b : WordBitVector) (rest : List ℕ)
    → IsWords b
    → deserialize_words (serialize_words b ++ rest) ≡ some (b, rest)
unfolding serialize_words deserialize_words
words_lem b rest v =
    rw
      (
        take_whole ((b.num_bits + 63) / 64) b.words v.needed,
        append_assoc (to_bytes 8 b.num_bits) (write_all word_format b.words) rest,
        word_back b.num_bits (write_all word_format b.words ++ rest) v.few,
        ← v.needed,
        read_all-write_all word_format b.words rest v.small,
      )
      refl

abbrev pub words_format : Format WordBitVector
words_format = record {
  IsValid = IsWords;
  serialize = serialize_words;
  deserialize = deserialize_words;
  get_serialized_size = size_words;
  length-serialize = length-serialize_words;
  deserialize-serialize = words_lem;
}
