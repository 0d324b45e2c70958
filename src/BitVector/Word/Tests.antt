-- ===== src/BitVector/Word/Tests.antt =====
-- Runs of the word bit vector.
use succinct_filesystem.Base.{◌^◌, ◌≡◌, refl, true, [], ◌∷◌, none, some}
use succinct_filesystem.BitVector.Word.{
  WordBitVector, create_bitvector, complement, set_bit, access, popcount, count_words, rank1, rank0,
  bits_in_word, masked_word, find_bit, word_count, select_words, select0, select1, shift_up, insert,
  shift_down, remove,
}

-- The bits 1, 0, 1.
abbrev three_bits : WordBitVector
three_bits = record { words = 5 ∷ []; num_bits = 3 }

reads :
    (access three_bits 2 ≡ true)
    × (rank1 three_bits 2 ≡ 2)
    × (rank0 three_bits 2 ≡ 1)
    × (select1 three_bits 2 ≡ some 2)
    × (select0 three_bits 1 ≡ some 1)
    × (select0 three_bits 2 ≡ none)
unfolding access rank1 rank0 select1 select0 popcount count_words bits_in_word masked_word find_bit
    word_count select_words
reads = (refl, refl, refl, refl, refl, refl)

edits :
    (insert three_bits 1 true ≡ record { words = 11 ∷ []; num_bits = 4 })
    × (remove three_bits 0 ≡ record { words = 2 ∷ []; num_bits = 2 })
    × (set_bit (create_bitvector 3) 1 true ≡ record { words = 2 ∷ []; num_bits = 3 })
unfolding insert remove set_bit create_bitvector complement shift_up shift_down
edits = (refl, refl, refl)

-- An insertion that carries a bit into the next word, and the removal that takes it back.
carries :
    (insert (record { words = 2 ^ 63 ∷ []; num_bits = 64 }) 0 true
      ≡ record { words = 1 ∷ 1 ∷ []; num_bits = 65 })
    × (remove (record { words = 1 ∷ 1 ∷ []; num_bits = 65 }) 0
        ≡ record { words = 2 ^ 63 ∷ []; num_bits = 64 })
unfolding insert remove complement shift_up shift_down
carries = (refl, refl)
