-- ===== src/BestFit/Tests.antt =====
-- Runs of the block allocation, on the array bit vector.
use succinct_filesystem.Base.{◌≡◌, refl, true, false, [], ◌∷◌, arith}
use succinct_filesystem.Base.Seq.{get_or}
use succinct_filesystem.BitVector.Array.{ArrayBitVector, access, size, set_bit}
use succinct_filesystem.BitVector.Array.Laws.{array_bitvector}
use succinct_filesystem.BestFit
use succinct_filesystem.BestFit.{size_max, blocks_for, start_search, scan_block}
use succinct_filesystem.BestFit.Handout.{Allocated, allocate_lem, free-allocate}

-- The header block, a free block, and a run of three free blocks.
abbrev bitmap : ArrayBitVector
bitmap = record { bits = true ∷ false ∷ true ∷ false ∷ false ∷ false ∷ true ∷ [] }

two_blocks :
    BestFit.allocate array_bitvector 4096 bitmap 5000
    ≡ (record { bits = true ∷ false ∷ true ∷ true ∷ true ∷ false ∷ true ∷ [] }, 3)
unfolding BestFit.allocate BestFit.find_start BestFit.scan BestFit.set_blocks scan_block
    start_search blocks_for access size set_bit
two_blocks = refl

allocate_example :
    Allocated array_bitvector bitmap
      (blocks_for 4096 5000)
      (BestFit.allocate array_bitvector 4096 bitmap 5000)
allocate_example = allocate_lem array_bitvector 4096 bitmap 5000 tt (omega arith) (omega arith)

free-allocate_example :
    get_or
      (BestFit.free array_bitvector 4096
        (BestFit.allocate array_bitvector 4096 bitmap 5000).0
        (BestFit.allocate array_bitvector 4096 bitmap 5000).1
        5000).bits
      3
      false
    ≡ get_or bitmap.bits 3 false
free-allocate_example =
    free-allocate array_bitvector 4096 bitmap 5000 tt (omega arith) (omega arith) 3
