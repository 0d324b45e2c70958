-- ===== src/Flouds/Sample.antt =====
-- A state of FLOUDS (src/flouds/flouds.cpp) to run the code on, over array bit vectors and array
-- names: a root with the file "a" and the empty folder "b".
use succinct_filesystem.Base.{
  ℕ, zero, suc, ◌+◌, ◌≤◌, ◌<◌, ◌≡◌, refl, Bool, true, false, List, [], ◌∷◌, arith,
}
use succinct_filesystem.BitVector.Array.Laws.{array_bitvector}
use succinct_filesystem.NameSequence.{Name}
use succinct_filesystem.NameSequence.Array.{array_name_sequence}
use succinct_filesystem.Flouds
use succinct_filesystem.Flouds.{Flouds, root_name}
use succinct_filesystem.Flouds.Shape.{IsTree, block_end, folder_index}
use succinct_filesystem.BitVector.Count
use succinct_filesystem.Flouds.Shape
use succinct_filesystem.Flouds.Refine.{Holds, access_at}

abbrev pub bits : List Bool
bits = true ∷ true ∷ false ∷ []

abbrev pub kinds : List ℕ
kinds = 1 ∷ 0 ∷ 2 ∷ []

abbrev pub labels : List Name
labels = root_name ∷ (b'a' ∷ []) ∷ (b'b' ∷ []) ∷ []

abbrev pub sample : Flouds array_bitvector array_name_sequence
sample = record {
  structure = record { bits = bits };
  types = record {
    root_bv = record { bits = false ∷ false ∷ true ∷ [] };
    left_bv = record { bits = true ∷ false ∷ [] };
    right_bv = record { bits = false ∷ [] };
  };
  names = record { names = labels };
}

pub sample-IsTree : IsTree bits kinds
sample-IsTree = record {
  same_length = refl;
  nonempty = omega arith;
  root_bit = refl;
  blocks = refl;
  below_root = below;
  parents_first = first;
}
  where
    below : (i : ℕ) → 0 < i → i < 3 → 2 ≤ Shape.block_of bits i
    below zero p h = absurd (omega arith)
    below (suc zero) p h = omega arith
    below (suc (suc zero)) p h = omega arith
    below (suc (suc (suc i))) p h = absurd (omega arith)

    first : (i : ℕ) → 0 < i → i < 3 → Shape.block_of bits i ≤ Count.rank Shape.full i kinds + 1
    first zero p h = absurd (omega arith)
    first (suc zero) p h = omega arith
    first (suc (suc zero)) p h = omega arith
    first (suc (suc (suc i))) p h = absurd (omega arith)

pub sample-Holds : Holds array_bitvector array_name_sequence sample bits kinds labels
sample-Holds = record {
  structure_valid = tt;
  structure_view = refl;
  types_hold = record {
    root_valid = tt;
    left_valid = tt;
    right_valid = tt;
    root = refl;
    left = refl;
    right = refl;
    symbols = omega arith;
  };
  names_valid = tt;
  names_view = refl;
  labelled = refl;
  tree = sample-IsTree;
}

pub sample-IsFile : Flouds.is_file array_bitvector array_name_sequence sample 1 ≡ true
unfolding Flouds.is_file
sample-IsFile =
    rw
      (access_at array_bitvector array_name_sequence bits kinds labels sample-Holds 1 (omega arith))
      refl
