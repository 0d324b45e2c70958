-- ===== src/Inodes/Hierarchy/Tests.antt =====
-- The theorems on the hierarchy inode manager at concrete managers, over the best-fit allocation on
-- a device in memory.
use succinct_filesystem.Base.{
  ℕ, ◌*◌, ◌≤◌, ◌<◌, ◌≡◌, ◌≢◌, inl, refl, ap, ap₂, sym, ◌∙◌, subst, true, false, List, [], ◌∷◌, ◌++◌,
  none, some, arith,
}
use succinct_filesystem.Base.Seq.{length, get_or, insert_at, remove_at}
use succinct_filesystem.BitVector.Array.Laws.{array_bitvector}
use succinct_filesystem.Device.Memory.{memory_device}
use succinct_filesystem.Serial.Format.{All}
use succinct_filesystem.Allocation.{AllocationManager}
use succinct_filesystem.Allocation.Apart.{Separation}
use succinct_filesystem.BestFit.{blocks_for}
use succinct_filesystem.BestFit.Manager.{BestFitAllocation}
use succinct_filesystem.BestFit.Manager.Content.{best_fit_allocation}
use succinct_filesystem.BestFit.Manager.Separate.{best_fit_separation, AreApart}
use succinct_filesystem.Inodes.{blank}
use succinct_filesystem.Inodes.Hierarchy.{
  InodeChunk, HierarchyInodeManager, insert_inode, get_inode, remove_inode, write_inode, serialize,
  deserialize, get_serialized_size, find_chunk, chunk_size,
}
use succinct_filesystem.Inodes.Hierarchy.Image.{
  inode_size, to_memory, length-to_memory, Fits, blank-Fits,
}
use succinct_filesystem.Inodes.Hierarchy.View.{view, contents}
use succinct_filesystem.Inodes.Hierarchy.Load.{IsValid}
use succinct_filesystem.Inodes.Hierarchy.Cache.{disk_written}
use succinct_filesystem.Inodes.Hierarchy.Get.{Points, get_inode_lem}
use succinct_filesystem.Inodes.Hierarchy.Split.{disk-cong}
use succinct_filesystem.Inodes.Hierarchy.Insert.{Inserted}
use succinct_filesystem.Inodes.Hierarchy.Insertion.{insert_inode_lem}
use succinct_filesystem.Inodes.Hierarchy.Removal.{remove_inode_lem}
use succinct_filesystem.Inodes.Hierarchy.Lost.{lost_write}
use succinct_filesystem.Inodes.Hierarchy.Saved.{saved_lem}

abbrev A : AllocationManager
A = best_fit_allocation array_bitvector (memory_device 4095)

some_bytes : 0 < chunk_size * inode_size
some_bytes = omega arith

abbrev S : Separation A (chunk_size * inode_size)
S = best_fit_separation array_bitvector (memory_device 4095) (chunk_size * inode_size) some_bytes

-- A device with the header block only, and a manager of no inodes.
abbrev fresh : BestFitAllocation array_bitvector (memory_device 4095)
fresh = record { block_bitmap = record { bits = true ∷ [] }; block_device = λ i. [] }

abbrev empty : HierarchyInodeManager A
empty = record {
  chunks = [];
  cache_handle = none;
  cached_inodes = [];
  cache_dirty = false;
  allocation_manager = fresh;
}

empty-IsValid : IsValid S empty
unfolding view contents
empty-IsValid = record {
  starts = tt;
  held = record { valid = tt; header = omega arith; used = tt; disjoint = tt };
  cache = inl refl;
  fit = tt;
}

insert_inode_lem_example :
    Inserted S empty 0 (insert_at (view A empty) 0 blank) (insert_inode A empty 0)
insert_inode_lem_example = insert_inode_lem S empty 0 empty-IsValid (omega arith) (omega arith)

-- With one inode.
abbrev single : HierarchyInodeManager A
single = (insert_inode A empty 0).0

single_inode : 0 < length (view A single)
unfolding view contents
single_inode = omega (arith, ap length insert_inode_lem_example.inserted)

get_inode_lem_example :
    (0 < length (view A single)
      → (p : ℕ) × ((get_inode A single 0).1 ≡ some p)
        × Points (get_inode A single 0).0 p 0
        × IsValid S (get_inode A single 0).0
        × (view A (get_inode A single 0).0 ≡ view A single))
    × (length (view A single) ≤ 0 → get_inode A single 0 ≡ (single, none))
get_inode_lem_example = get_inode_lem S single 0 insert_inode_lem_example.valid

remove_inode_lem_example :
    (0 < length (view A single)
      → IsValid S (remove_inode A single 0)
        × (view A (remove_inode A single 0) ≡ remove_at (view A single) 0))
    × (length (view A single) ≤ 0 → remove_inode A single 0 ≡ single)
remove_inode_lem_example = remove_inode_lem S single 0 insert_inode_lem_example.valid

-- Two chunks of one inode each, at the blocks 1 and 2.
abbrev two_blocks : BestFitAllocation array_bitvector (memory_device 4095)
two_blocks = record {
  block_bitmap = record { bits = true ∷ true ∷ true ∷ [] };
  block_device = λ i. [];
}

one_block : blocks_for 4096 (chunk_size * inode_size) ≡ 1
unfolding blocks_for
one_block = omega arith

two_blocks-AreApart :
    AreApart array_bitvector
      (memory_device 4095)
      (chunk_size * inode_size)
      some_bytes
      two_blocks
      (1 ∷ 2 ∷ [])
two_blocks-AreApart = record {
  valid = tt;
  header = omega arith;
  used = (
    λ j from to.
        ap (λ i. get_or (true ∷ true ∷ true ∷ []) i false) {x = j} {y = 1}
          (omega (arith, from, to, one_block)),
    (
      λ j from to.
          ap (λ i. get_or (true ∷ true ∷ true ∷ []) i false) {x = j} {y = 2}
            (omega (arith, from, to, one_block)),
      tt,
    ),
  );
  disjoint = ((inl (omega (arith, one_block)), tt), (tt, tt));
}

abbrev image_of_blank : List ℕ
image_of_blank = to_memory (blank ∷ [])

valid_image : All Fits (blank ∷ [])
valid_image = (blank-Fits, tt)

short : length image_of_blank ≤ chunk_size * inode_size
short = omega (arith, length-to_memory (blank ∷ []) valid_image)

abbrev first_written : A.Carrier
first_written = A.write two_blocks 1 image_of_blank 0

abbrev both_written : A.Carrier
both_written = A.write first_written 2 image_of_blank 0

first_held : S.Held first_written (1 ∷ 2 ∷ [])
first_held = S.write-Held two_blocks [] 1 (2 ∷ []) image_of_blank two_blocks-AreApart short

abbrev left_chunk : InodeChunk
left_chunk = record { handle = 1; start_inode = 0; num_inodes = 1 }

abbrev right_chunk : InodeChunk
right_chunk = record { handle = 2; start_inode = 1; num_inodes = 1 }

abbrev two_chunks : HierarchyInodeManager A
two_chunks = record {
  chunks = left_chunk ∷ right_chunk ∷ [];
  cache_handle = none;
  cached_inodes = [];
  cache_dirty = false;
  allocation_manager = both_written;
}

view-two_chunks : view A two_chunks ≡ blank ∷ blank ∷ []
unfolding view contents
view-two_chunks =
    ap₂ ◌++◌
      (disk-cong S two_blocks [] left_chunk [] [] first_written both_written left_chunk
          (omega arith)
          (S.write-Unaltered first_written (1 ∷ []) 2 [] image_of_blank first_held short).0.0
        ∙ disk_written S two_blocks left_chunk (blank ∷ []) valid_image refl)
      (ap₂ ◌++◌ (disk_written S first_written right_chunk (blank ∷ []) valid_image refl) refl)

two_chunks-IsValid : IsValid S two_chunks
two_chunks-IsValid = record {
  starts = omega arith;
  held = S.write-Held first_written (1 ∷ []) 2 [] image_of_blank first_held short;
  cache = inl refl;
  fit = subst (λ xs. All Fits xs) (sym view-two_chunks) (blank-Fits, (blank-Fits, tt));
}

different_chunks : find_chunk 0 two_chunks.chunks 1 ≢ find_chunk 0 two_chunks.chunks 0
unfolding find_chunk
different_chunks e = cc e

lost_write_example :
    view A
      (get_inode A
        (write_inode A (get_inode A two_chunks 0).0 0 (record blank { mode = 0x81a4 }))
        1).0
    ≡ view A two_chunks
lost_write_example =
    lost_write S two_chunks 0 1 0 (record blank { mode = 0x81a4 }) two_chunks-IsValid refl
      (omega (arith, ap length view-two_chunks)) (omega (arith, ap length view-two_chunks))
      different_chunks

saved_lem_example :
    (length (serialize A two_chunks).1 ≡ get_serialized_size A two_chunks)
    × (r : HierarchyInodeManager A) × (deserialize A
          (serialize A two_chunks).0
          ((serialize A two_chunks).1 ++ 7 ∷ [])
        ≡ some (r, 7 ∷ []))
    × IsValid S r
    × (view A r ≡ view A two_chunks)
saved_lem_example = saved_lem S two_chunks (7 ∷ []) two_chunks-IsValid (omega arith) (omega arith)
