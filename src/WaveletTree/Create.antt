-- ===== src/WaveletTree/Create.antt =====
-- The tree that the factory builds for the symbol sequence of a new FLOUDS
-- (src/wavelet_tree/two_bit_wavelet_tree.hpp, create_two_bit_wavelet_tree).
use succinct_filesystem.Base.{◌∙◌, ap, true, [], ◌∷◌, arith, ◌<◌, ◌≡◌}
use succinct_filesystem.Base.Seq.{length, set}
use succinct_filesystem.BitVector.{BitVector}
use succinct_filesystem.WaveletTree
use succinct_filesystem.WaveletTree.Refine.{Holds}

-- A vector of one bit that is set.
pub one_bit :
    (B : BitVector)
    → B.IsValid (B.set_bit (B.create_bitvector 1) 0 true)
      × (B.view (B.set_bit (B.create_bitvector 1) 0 true) ≡ true ∷ [])
one_bit B =
    let inside : 0 < length (B.view (B.create_bitvector 1)) = rw B.view-create (omega arith) in
    (
      B.set-IsValid (B.create_bitvector 1) 0 true (B.create-IsValid 1) inside,
      B.view-set (B.create_bitvector 1) 0 true (B.create-IsValid 1) inside
          ∙ ap (λ bits. set bits 0 true) (B.view-create 1),
    )

pub create_one-Holds :
    (B : BitVector) → Holds B (WaveletTree.create_two_bit_wavelet_tree B (2 ∷ [])) (2 ∷ [])
unfolding WaveletTree.create_two_bit_wavelet_tree
create_one-Holds B = record {
  root_valid = (one_bit B).0;
  left_valid = B.create-IsValid 0;
  right_valid = B.create-IsValid 1;
  root = (one_bit B).1;
  left = B.view-create 0;
  right = B.view-create 1;
  symbols = omega arith;
}
