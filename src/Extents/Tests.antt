-- ===== src/Extents/Tests.antt =====
-- Runs of the extent allocation, on the array bit vector.
use succinct_filesystem.Base.{ℕ, ◌≡◌, ◌<◌, refl, true, false, List, [], ◌∷◌, some, arith}
use succinct_filesystem.BitVector.Array.{ArrayBitVector}
use succinct_filesystem.BitVector.Array.Laws.{array_bitvector}
use succinct_filesystem.BestFit.{blocks_for}
use succinct_filesystem.Extents
use succinct_filesystem.Extents.{Extent, ExtentAllocation, find_extents}
use succinct_filesystem.Extents.Cover.{Covers, allocate-Covers, resize-Covers}

abbrev bitmap : ArrayBitVector
bitmap = record { bits = true ∷ true ∷ true ∷ false ∷ false ∷ true ∷ [] }

-- One allocation, of the blocks 1 and 2 and then 5.
abbrev extents : List Extent
extents =
    record { start_block = 1; num_blocks = 2 } ∷ record { start_block = 5; num_blocks = 1 } ∷ []

abbrev sample : ExtentAllocation array_bitvector
sample = record { block_bitmap = bitmap; extent_map = (1, extents) ∷ [] }

sample-Covers : Covers sample.extent_map 1 (blocks_for 4096 12000)
unfolding find_extents blocks_for
sample-Covers = (extents, refl, omega arith)

two_blocks : 0 < blocks_for 4096 8000
unfolding blocks_for
two_blocks = omega arith

allocate-Covers_example :
    (a' : ExtentAllocation array_bitvector) × (handle : ℕ) × (Extents.allocate array_bitvector 4096
        sample 8000
      ≡ some (a', handle))
    × Covers a'.extent_map handle (blocks_for 4096 8000)
allocate-Covers_example = allocate-Covers array_bitvector 4096 sample 8000 two_blocks

resize-Covers_example :
    (a' : ExtentAllocation array_bitvector) × (Extents.resize array_bitvector 4096 sample 1 12000
        20000
      ≡ some (a', 1))
    × Covers a'.extent_map 1 (blocks_for 4096 20000)
resize-Covers_example = resize-Covers array_bitvector 4096 sample 1 12000 20000 sample-Covers
