-- ===== src/BitVector/Word.antt =====
-- WordBitVectorStrategy (src/bitvector/word_bitvector.cpp): the bits in 64-bit words. A read or write
-- of a word out of range is undefined in C++; here it reads 0, and writes nothing. `none` is the
-- thrown std::out_of_range. `popcount` is __builtin_popcountll.
pub mod Bounds
mod Tests
use Prim.Native.Nat.{bit_and, bit_or}
use succinct_filesystem.Base.{
  ℕ, zero, suc, ◌+◌, ◌-◌, ◌*◌, ◌/◌, ◌%◌, ◌^◌, ◌≤◌, ◌<◌, Bool, true, false, not, ◌&&◌, List, [],
  ◌++◌, ◌∷◌, Option, none, some, ltb, leb, ◌==◌, if◌then◌else◌,
}
use succinct_filesystem.Base.Seq.{length, get_or, set, take, replicate}

pub record WordBitVector : Type 0 where
  pub words : List ℕ
  pub num_bits : ℕ

pub create_bitvector : ℕ → WordBitVector
create_bitvector n = record { words = replicate ((n + 63) / 64) 0; num_bits = n }

-- `~x` on 64 bits.
pub complement : ℕ → ℕ
complement x = 2 ^ 64 - 1 - x

pub set_bit : WordBitVector → ℕ → Bool → WordBitVector
set_bit b position value =
    let word = get_or b.words (position / 64) 0 in
    let bit = 2 ^ (position % 64) in
    record b {
      words =
          set b.words (position / 64)
            (if value then bit_or word bit else bit_and word (complement bit));
    }

pub access : WordBitVector → ℕ → Bool
access b position = bit_and (get_or b.words (position / 64) 0 / 2 ^ (position % 64)) 1 == 1

pub size : WordBitVector → ℕ
size b = b.num_bits

-- The set bits among the `n` lowest.
pub popcount : ℕ → ℕ → ℕ
popcount zero word = 0
popcount (suc n) word = word % 2 + popcount n (word / 2)

-- The loop over the full words, with the rounds left first.
pub count_words : ℕ → List ℕ → ℕ → ℕ → ℕ
count_words zero words i count = count
count_words (suc rounds) words i count =
    count_words rounds words (i + 1) (count + popcount 64 (get_or words i 0))

pub rank1 : WordBitVector → ℕ → ℕ
rank1 b position =
    let full_words = (position + 1) / 64 in
    let remaining_bits = (position + 1) % 64 in
    let count = count_words full_words b.words 0 0 in
    if ltb 0 remaining_bits
    then count + popcount 64 (bit_and (get_or b.words full_words 0) (2 ^ remaining_bits - 1))
    else count

pub rank0 : WordBitVector → ℕ → ℕ
rank0 b position = position + 1 - rank1 b position

-- The bits of word `i` that belong to the sequence.
pub bits_in_word : WordBitVector → ℕ → ℕ
bits_in_word b i =
    if i == length b.words - 1 then (if b.num_bits % 64 == 0 then 64 else b.num_bits % 64) else 64

pub masked_word : WordBitVector → ℕ → ℕ
masked_word b i =
    let word = get_or b.words i 0 in
    if (i == length b.words - 1) && ltb (bits_in_word b i) 64
    then bit_and word (2 ^ bits_in_word b i - 1)
    else word

-- The inner loop of a select, with the rounds left first.
pub find_bit : ℕ → ℕ → ℕ → ℕ → ℕ → Option ℕ
find_bit zero wanted word j remaining = none
find_bit (suc rounds) wanted word j remaining =
    let hit = bit_and (word / 2 ^ j) 1 == wanted in
    let remaining' = if hit then remaining - 1 else remaining in
    let rest = find_bit rounds wanted word (j + 1) remaining' in
    if hit && (remaining' == 0) then some j else rest

pub word_count : ℕ → WordBitVector → ℕ → ℕ
word_count wanted b i =
    let ones = popcount 64 (masked_word b i) in
    if wanted == 1 then ones else bits_in_word b i - ones

-- The outer loop of select1 (`wanted` is 1) and select0 (0), with the rounds left first; it ends in
-- the throw.
pub select_words : ℕ → ℕ → WordBitVector → ℕ → ℕ → ℕ → Option ℕ
select_words zero wanted b n i count = none
select_words (suc rounds) wanted b n i count =
    let here = word_count wanted b i in
    let rest = select_words rounds wanted b n (i + 1) (count + here) in
    if leb n (count + here)
    then elim (find_bit (bits_in_word b i) wanted (masked_word b i) 0 (n - count)) [
      | some j ↦ some (i * 64 + j)
      | none ↦ rest
    ]
    else rest

pub select0 : WordBitVector → ℕ → Option ℕ
select0 b n = select_words (length b.words) 0 b n 0 0

pub select1 : WordBitVector → ℕ → Option ℕ
select1 b n = select_words (length b.words) 1 b n 0 0

-- The loop of insert from the last word down to the one behind `word_index`.
pub shift_up : ℕ → List ℕ → ℕ → List ℕ
shift_up zero words i = words
shift_up (suc rounds) words i =
    let shifted = bit_or (get_or words i 0 * 2 % 2 ^ 64) (get_or words (i - 1) 0 / 2 ^ 63) in
    shift_up rounds (set words i shifted) (i - 1)

pub insert : WordBitVector → ℕ → Bool → WordBitVector
insert b position value =
    let num_bits = b.num_bits + 1 in
    let words = if num_bits % 64 == 1 then b.words ++ 0 ∷ [] else b.words in
    let word_index = position / 64 in
    let bit = 2 ^ (position % 64) in
    let mask = bit - 1 in
    let shifted = shift_up (length words - 1 - word_index) words (length words - 1) in
    let word = get_or shifted word_index 0 in
    let high_bits = bit_and word (complement mask) in
    let low_bits = bit_and word mask in
    let joined = bit_or low_bits (high_bits * 2 % 2 ^ 64) in
    record {
      words =
          set shifted word_index
            (if value then bit_or joined bit else bit_and joined (complement bit));
      num_bits = num_bits;
    }

-- The loop of remove from `word_index` up.
pub shift_down : ℕ → List ℕ → ℕ → List ℕ
shift_down zero words i = words
shift_down (suc rounds) words i =
    let next = get_or words (i + 1) 0 in
    let joined = bit_or (get_or words i 0) (next * 2 ^ 63 % 2 ^ 64) in
    shift_down rounds (set (set words i joined) (i + 1) (next / 2)) (i + 1)

pub remove : WordBitVector → ℕ → WordBitVector
remove b position =
    let word_index = position / 64 in
    let mask = 2 ^ (position % 64) - 1 in
    let word = get_or b.words word_index 0 in
    let joined = bit_or (bit_and word mask) (bit_and (word / 2) (complement mask)) in
    let words =
      shift_down (length b.words - 1 - word_index) (set b.words word_index joined) word_index in
    let num_bits = b.num_bits - 1 in
    record {
      words =
          if (num_bits % 64 == 0) && ltb 0 num_bits then take (length words - 1) words else words;
      num_bits = num_bits;
    }
