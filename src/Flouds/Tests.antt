-- ===== src/Flouds/Tests.antt =====
-- The theorems on FLOUDS at the sample state.
use succinct_filesystem.Base.{ℕ, ◌+◌, ◌<◌, ◌≡◌, refl, true, false, [], ◌∷◌, some, arith}
use succinct_filesystem.Base.Seq.{insert_at}
use succinct_filesystem.BitVector.Array.Laws.{array_bitvector}
use succinct_filesystem.NameSequence.Array.{array_name_sequence}
use succinct_filesystem.Flouds
use succinct_filesystem.Flouds.{Flouds, root_name}
use succinct_filesystem.Flouds.Shape.{block_end}
use succinct_filesystem.Flouds.Refine.{Holds}
use succinct_filesystem.Flouds.Insert.{insert_full, insert_empty}
use succinct_filesystem.Flouds.Family.{parent-child, child-parent}
use succinct_filesystem.Flouds.Sample.{bits, kinds, labels, sample, sample-Holds}

child-parent_example :
    (q c count : ℕ) × (Flouds.parent array_bitvector array_name_sequence sample 2 ≡ some q)
    × (q < 2)
    × (Flouds.children_count array_bitvector array_name_sequence sample q ≡ some count)
    × (c < count)
    × (Flouds.child array_bitvector array_name_sequence sample q c ≡ some 2)
child-parent_example =
    child-parent array_bitvector array_name_sequence bits kinds labels sample-Holds 2 (omega arith)
      (omega arith)

parent-child_example :
    (count start : ℕ) × (Flouds.children_count array_bitvector array_name_sequence sample 0
      ≡ some count)
    × (0 < count)
    × ((c : ℕ)
        → c < count
        → (Flouds.child array_bitvector array_name_sequence sample 0 c ≡ some (start + c))
          × (Flouds.parent array_bitvector array_name_sequence sample (start + c) ≡ some 0))
parent-child_example =
    parent-child array_bitvector array_name_sequence bits kinds labels sample-Holds 0 refl

insert_full_example :
    let e = block_end bits 2 in
    (f' : Flouds array_bitvector array_name_sequence) × (Flouds.insert array_bitvector
        array_name_sequence sample 0
        (b'c' ∷ [])
        true
      ≡ some (f', e))
    × Holds array_bitvector array_name_sequence f'
        (insert_at bits e false)
        (insert_at kinds e 2)
        (insert_at labels e (b'c' ∷ []))
insert_full_example =
    insert_full array_bitvector array_name_sequence bits kinds labels sample-Holds 0 (b'c' ∷ [])
      true refl

insert_empty_example :
    let e = block_end bits 2 in
    (f' : Flouds array_bitvector array_name_sequence) × (Flouds.insert array_bitvector
        array_name_sequence sample 2
        (b'c' ∷ [])
        false
      ≡ some (f', e))
    × Holds array_bitvector array_name_sequence f'
        (insert_at bits e true)
        (insert_at (1 ∷ 0 ∷ 1 ∷ []) e 0)
        (insert_at labels e (b'c' ∷ []))
insert_empty_example =
    insert_empty array_bitvector array_name_sequence bits kinds labels sample-Holds 2 (b'c' ∷ [])
      false refl
