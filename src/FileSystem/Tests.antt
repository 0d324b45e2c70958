-- ===== src/FileSystem/Tests.antt =====
-- The theorems on the file system manager at a small file system.
use succinct_filesystem.Base.{ℕ, suc, ◌≡◌, inr, refl, true, [], ◌∷◌, some, none, arith}
use succinct_filesystem.BitVector.Array.Laws.{array_bitvector}
use succinct_filesystem.NameSequence.Array.{array_name_sequence}
use succinct_filesystem.Inodes.{ArrayInodeManager}
use succinct_filesystem.Flouds.{Flouds}
use succinct_filesystem.Flouds.Sample.{bits, kinds, labels}
use succinct_filesystem.Device.Memory.{memory_device}
use succinct_filesystem.BestFit.Manager.{BestFitAllocation}
use succinct_filesystem.Serial.{Serializable}
use succinct_filesystem.Serial.Packed.{
  serialize_bits, deserialize_bits, size_bits, length-serialize_bits,
}
use succinct_filesystem.FileSystem
use succinct_filesystem.FileSystem.{FileSystem}
use succinct_filesystem.FileSystem.Files.{IsBuffered, read_file-write_file, write_file-IsBuffered}
use succinct_filesystem.FileSystem.Nodes.{Added, add_node_lem}
use succinct_filesystem.FileSystem.Saving.{settle_ends}
use succinct_filesystem.FileSystem.Sample.{
  manager, start, start-IsBuffered, start-IsAligned, one_byte,
}

read_file-write_file_example :
    (FileSystem.read_file array_bitvector array_name_sequence manager 8
      (FileSystem.write_file array_bitvector array_name_sequence manager 7 start 1 (5 ∷ 6 ∷ []) 2)
      1
      2
      2).1
    ≡ 5 ∷ 6 ∷ []
read_file-write_file_example =
    read_file-write_file array_bitvector array_name_sequence manager 7 8 start 1 (5 ∷ 6 ∷ []) 2
      start-IsBuffered (omega arith)

write_file-IsBuffered_example :
    IsBuffered array_bitvector array_name_sequence manager
      (FileSystem.write_file array_bitvector array_name_sequence manager 7 start 1 (5 ∷ 6 ∷ []) 2)
write_file-IsBuffered_example =
    write_file-IsBuffered array_bitvector array_name_sequence manager 7 start 1 (5 ∷ 6 ∷ []) 2
      start-IsBuffered

add_node_lem_example :
    (fs' : FileSystem array_bitvector array_name_sequence manager) × (n : ℕ) × (FileSystem.add_node
        array_bitvector array_name_sequence manager 7 start 2
        (b'c' ∷ [])
        true
        0x1ed
      ≡ (fs', some n))
    × Added array_bitvector array_name_sequence manager 7 start 2
        (b'c' ∷ [])
        true
        0x1ed
        labels
        fs'
        n
add_node_lem_example =
    add_node_lem array_bitvector array_name_sequence manager 7 start bits kinds labels
      start-IsAligned 2 (b'c' ∷ []) true 0x1ed (inr refl)

-- The best-fit allocation is saved as its bitmap.
abbrev bitmap_bytes : Serializable (BestFitAllocation array_bitvector (memory_device 3))
bitmap_bytes = record {
  serialize = λ a. serialize_bits a.block_bitmap;
  deserialize = λ a buffer. record a {
    block_bitmap = elim (deserialize_bits buffer) [ none ↦ a.block_bitmap | some (b, rest) ↦ b ];
  };
  get_serialized_size = λ a. size_bits a.block_bitmap;
  length-serialize = λ a. length-serialize_bits a.block_bitmap;
}

-- The loop ends with the number of bytes that the bitmap then takes, over the same blocks.
settle_ends_example :
    FileSystem.settle array_bitvector array_name_sequence manager
      (one_byte (Flouds array_bitvector array_name_sequence))
      (one_byte ArrayInodeManager)
      bitmap_bytes
      (suc (suc 3))
      start.allocation_manager
      1
      5
    ≡ (start.allocation_manager, 1, size_bits (record { bits = true ∷ [] }))
settle_ends_example =
    settle_ends array_bitvector array_name_sequence array_bitvector (memory_device 3)
      (one_byte (Flouds array_bitvector array_name_sequence)) (one_byte ArrayInodeManager)
      bitmap_bytes 3 start.allocation_manager 1 5
