-- ===== src/WaveletTree/Tests.antt =====
-- The wavelet tree over array bit vectors at a concrete sequence.
use succinct_filesystem.Base.{ℕ, ◌≡◌, refl, true, false, List, [], ◌∷◌, some, arith}
use succinct_filesystem.BitVector.Array.Laws.{array_bitvector}
use succinct_filesystem.WaveletTree
use succinct_filesystem.WaveletTree.{TwoBitWaveletTree}
use succinct_filesystem.WaveletTree.Refine.{Holds, access_lem, rank_lem}
use succinct_filesystem.WaveletTree.Select.{select_lem}
use succinct_filesystem.WaveletTree.Update.{insert-Holds, remove-Holds, set_symbol-Holds}

abbrev symbols : List ℕ
symbols = 1 ∷ 0 ∷ 2 ∷ 1 ∷ []

abbrev sample : TwoBitWaveletTree array_bitvector
sample = record {
  root_bv = record { bits = false ∷ false ∷ true ∷ false ∷ [] };
  left_bv = record { bits = true ∷ false ∷ true ∷ [] };
  right_bv = record { bits = false ∷ [] };
}

sample-Holds : Holds array_bitvector sample symbols
sample-Holds = record {
  root_valid = tt;
  left_valid = tt;
  right_valid = tt;
  root = refl;
  left = refl;
  right = refl;
  symbols = omega arith;
}

access_lem_example : WaveletTree.access array_bitvector sample 2 ≡ 2
access_lem_example = access_lem array_bitvector symbols sample-Holds 2 (omega arith)

rank_lem_example : WaveletTree.rank array_bitvector sample 1 3 ≡ some 2
rank_lem_example = rank_lem array_bitvector symbols sample-Holds 1 3 (omega arith)

select_lem_example : WaveletTree.select array_bitvector sample 1 2 ≡ some 3
select_lem_example =
    select_lem array_bitvector symbols sample-Holds 1 2 (omega arith) (omega arith) (omega arith)

insert-Holds_example :
    Holds array_bitvector (WaveletTree.insert array_bitvector sample 1 3) (1 ∷ 3 ∷ 0 ∷ 2 ∷ 1 ∷ [])
insert-Holds_example =
    insert-Holds array_bitvector symbols sample-Holds 1 3 (omega arith) (omega arith)

remove-Holds_example :
    Holds array_bitvector (WaveletTree.remove array_bitvector sample 2) (1 ∷ 0 ∷ 1 ∷ [])
remove-Holds_example = remove-Holds array_bitvector symbols sample-Holds 2 (omega arith)

set_symbol-Holds_example :
    Holds array_bitvector (WaveletTree.set_symbol array_bitvector sample 2 1) (1 ∷ 0 ∷ 1 ∷ 1 ∷ [])
set_symbol-Holds_example =
    set_symbol-Holds array_bitvector symbols 2 1 sample-Holds (omega arith) (omega arith)
