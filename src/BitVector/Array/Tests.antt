-- ===== src/BitVector/Array/Tests.antt =====
-- Runs of the array bit vector.
use succinct_filesystem.BitVector.{ones}
use succinct_filesystem.BitVector.Count.{select}
use succinct_filesystem.BitVector.Array.Laws.{select1_lem}
use succinct_filesystem.Base.{arith, ◌≡◌, refl, true, false, [], ◌∷◌, none, some}
use succinct_filesystem.BitVector.Array.{
  ArrayBitVector, rank1, rank0, select1, select0, insert, remove,
}

abbrev sample : ArrayBitVector
sample = record { bits = true ∷ false ∷ true ∷ [] }

runs :
    (rank1 sample 1 ≡ 1)
    × (rank0 sample 2 ≡ 1)
    × (select1 sample 2 ≡ some 2)
    × (select1 sample 3 ≡ none)
    × (select0 sample 1 ≡ some 1)
unfolding rank1 rank0 select1 select0
runs = (refl, refl, refl, refl, refl)

edits :
    (insert sample 1 true ≡ record { bits = true ∷ true ∷ false ∷ true ∷ [] })
    × (remove sample 0 ≡ record { bits = false ∷ true ∷ [] })
unfolding insert remove
edits = (refl, refl)

select1_lem_example : select1 sample 2 ≡ select ones 2 sample.bits
select1_lem_example = select1_lem sample 2 (omega arith)
