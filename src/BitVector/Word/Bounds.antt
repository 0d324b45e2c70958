-- ===== src/BitVector/Word/Bounds.antt =====
-- The bounds of the ranks of WordBitVectorStrategy (src/bitvector/word_bitvector.cpp).
use succinct_filesystem.Base.{
  ℕ, zero, suc, ◌+◌, ◌-◌, ◌*◌, ◌/◌, ◌%◌, ◌^◌, ◌≤◌, ◌<◌, ◌≡◌, List, arith,
}
use succinct_filesystem.Base.Bits.{bit_and_mask}
use native.Mathlib.Nat.{one-le-pow}
use Prim.Native.Nat.{bit_and}
use succinct_filesystem.Base.Seq.{get_or}
use succinct_filesystem.BitVector.Word.{WordBitVector, popcount, count_words, rank0, rank1}

popcount_le : (n word : ℕ) → popcount n word ≤ n
unfolding popcount
popcount_le zero word = omega arith
popcount_le (suc n) word = omega (arith, popcount_le n (word / 2))

popcount_small : (k n word : ℕ) → word < 2 ^ k → popcount n word ≤ k
unfolding popcount
popcount_small k zero word h = omega arith
popcount_small zero (suc n) word h = omega (arith, popcount_small zero n (word / 2) (omega arith))
popcount_small (suc k) (suc n) word h = omega (arith, popcount_small k n (word / 2) (omega arith))

count_words_le :
    (rounds : ℕ) (words : List ℕ) (i count : ℕ)
    → count_words rounds words i count ≤ count + 64 * rounds
unfolding count_words
count_words_le zero words i count = omega arith
count_words_le (suc rounds) words i count = omega (
  arith,
  popcount_le 64 (get_or words i 0),
  count_words_le rounds words (i + 1) (count + popcount 64 (get_or words i 0)),
)

masked_le : (word k : ℕ) → popcount 64 (bit_and word (2 ^ k - 1)) ≤ k
masked_le word k =
    rw (bit_and_mask k word) (popcount_small k 64 (word % 2 ^ k) (ground (arith, one-le-pow k 2)))

rank1_le : (b : WordBitVector) (position : ℕ) → rank1 b position ≤ position + 1
unfolding rank1
rank1_le b position =
    let full_words = (position + 1) / 64 in
    let remaining_bits = (position + 1) % 64 in
    ground (
      arith,
      count_words_le full_words b.words 0 0,
      masked_le (get_or b.words full_words 0) remaining_bits,
    )

-- At every position, whatever the words hold, rank0 and rank1 together count that position and all
-- before it: the subtraction of rank0 does not underflow.
pub rank0-rank1 :
    (b : WordBitVector) (position : ℕ) → rank0 b position + rank1 b position ≡ position + 1
unfolding rank0
rank0-rank1 b position = omega (arith, rank1_le b position)
