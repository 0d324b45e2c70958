-- ===== src/BestFit/Manager/Tests.antt =====
-- The theorems on the best-fit allocation as a whole, on the array bit vector and blocks of four bytes.
use succinct_filesystem.Base.{ℕ, zero, suc, ◌<◌, ◌≡◌, inl, refl, true, false, [], ◌∷◌, arith}
use succinct_filesystem.Base.Seq.{get_or}
use succinct_filesystem.Serial.Format.{All}
use succinct_filesystem.BestFit.{blocks_for}
use succinct_filesystem.BitVector.Array.Laws.{array_bitvector}
use succinct_filesystem.Device.Memory.{memory_device}
use succinct_filesystem.BestFit.Manager
use succinct_filesystem.BestFit.Manager.{BestFitAllocation}
use succinct_filesystem.BestFit.Manager.Content.{resize-content}
use succinct_filesystem.BestFit.Manager.Allotted.{AreAllotted, ReadsSame, allocate-AreAllotted}

-- The allocation at block 1 has a neighbour at block 2.
abbrev crowded : BestFitAllocation array_bitvector (memory_device 3)
crowded = record {
  block_bitmap = record { bits = true ∷ true ∷ true ∷ [] };
  block_device = λ i. 7 ∷ 8 ∷ 9 ∷ i ∷ [];
}

resize-content_example :
    Manager.read array_bitvector
      (memory_device 3)
      (Manager.resize array_bitvector (memory_device 3) crowded 1 4 6).0
      (Manager.resize array_bitvector (memory_device 3) crowded 1 4 6).1
      4
      0
    ≡ Manager.read array_bitvector (memory_device 3) crowded 1 4 0
resize-content_example = resize-content array_bitvector (memory_device 3) crowded 1 4 6

-- An allocation of 6 bytes at the blocks 1 and 2, and one of 3 bytes at block 3.
abbrev sized : BestFitAllocation array_bitvector (memory_device 3)
sized = record {
  block_bitmap = record { bits = true ∷ true ∷ true ∷ true ∷ [] };
  block_device = λ i. 7 ∷ 8 ∷ 9 ∷ i ∷ [];
}

block_counts : (blocks_for 4 6 ≡ 2) × (blocks_for 4 3 ≡ 1)
unfolding blocks_for
block_counts = omega arith

sized_bits : (j : ℕ) → j < 4 → get_or (true ∷ true ∷ true ∷ true ∷ []) j false ≡ true
sized_bits zero lt = refl
sized_bits (suc zero) lt = refl
sized_bits (suc (suc zero)) lt = refl
sized_bits (suc (suc (suc zero))) lt = refl
sized_bits (suc (suc (suc (suc j)))) lt = absurd (omega arith)

sized-AreAllotted : AreAllotted array_bitvector (memory_device 3) sized ((1, 6) ∷ (3, 3) ∷ [])
sized-AreAllotted = record {
  valid = tt;
  header = omega arith;
  allotted = (
    record {
      some_bytes = omega arith;
      used = λ j from to. sized_bits j (omega (arith, to, block_counts.0));
    },
    (
      record {
        some_bytes = omega arith;
        used = λ j from to. sized_bits j (omega (arith, to, block_counts.1));
      },
      tt,
    ),
  );
  clear = ((inl (omega (arith, block_counts.0)), tt), (tt, tt));
}

-- A third one, of 9 bytes, of which three are written.
allocate-AreAllotted_example :
    let given = Manager.allocate array_bitvector (memory_device 3) sized 9 in
    AreAllotted array_bitvector (memory_device 3) given.0 ((given.1, 9) ∷ (1, 6) ∷ (3, 3) ∷ [])
    × All
        (ReadsSame array_bitvector
          (memory_device 3)
          sized
          (Manager.write array_bitvector (memory_device 3) given.0 given.1 (5 ∷ 6 ∷ 4 ∷ []) 3))
        ((1, 6) ∷ (3, 3) ∷ [])
allocate-AreAllotted_example =
    allocate-AreAllotted array_bitvector (memory_device 3) sized ((1, 6) ∷ (3, 3) ∷ []) 9
      (5 ∷ 6 ∷ 4 ∷ []) 3 sized-AreAllotted (omega arith) (omega arith) (omega arith)
