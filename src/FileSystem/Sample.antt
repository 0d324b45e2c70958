-- ===== src/FileSystem/Sample.antt =====
-- A file system to run the code on: the sample tree, best-fit allocation on blocks of four bytes in
-- memory, and no bytes stored.
use succinct_filesystem.Base.{refl, true, [], ◌∷◌, arith}
use succinct_filesystem.Base.Seq.{replicate}
use succinct_filesystem.BitVector.Array.Laws.{array_bitvector}
use succinct_filesystem.NameSequence.Array.{array_name_sequence}
use succinct_filesystem.Device.Memory.{memory_device}
use succinct_filesystem.Allocation.{AllocationManager}
use succinct_filesystem.BestFit.Manager.Content.{best_fit_allocation}
use succinct_filesystem.Serial.{Serializable}
use succinct_filesystem.Inodes.{blank}
use succinct_filesystem.Flouds.Sample.{bits, kinds, labels, sample, sample-Holds}
use succinct_filesystem.FileSystem.{FileSystem}
use succinct_filesystem.FileSystem.Files.{IsBuffered}
use succinct_filesystem.FileSystem.Nodes.{IsAligned}

abbrev pub manager : AllocationManager
manager = best_fit_allocation array_bitvector (memory_device 3)

abbrev pub start : FileSystem array_bitvector array_name_sequence manager
start = record {
  header = record {
    allocation_manager_handle = 0;
    allocation_manager_size = 0;
    flouds_handle = 0;
    flouds_size = 0;
    inode_manager_handle = 0;
    inode_manager_size = 0;
  };
  flouds = sample;
  inode_manager = record { inodes = blank ∷ blank ∷ blank ∷ [] };
  allocation_manager = record {
    block_bitmap = record { bits = true ∷ [] };
    block_device = λ i. [];
  };
  delayed_write = record { inode = 0; size = 0; offset = 0 };
  delayed_write_buffer = replicate 64 0;
}

pub start-IsBuffered : IsBuffered array_bitvector array_name_sequence manager start
start-IsBuffered = record { room = refl; filled = omega arith }

pub start-IsAligned : IsAligned array_bitvector array_name_sequence manager start bits kinds labels
start-IsAligned = record { tree = sample-Holds; same = refl }

-- An object whose saved form is one byte, whatever its state.
abbrev pub one_byte : (A : Type 0) → Serializable A
one_byte A = record {
  serialize = λ a. 0 ∷ [];
  deserialize = λ a buffer. a;
  get_serialized_size = λ a. 1;
  length-serialize = λ a. refl;
}
