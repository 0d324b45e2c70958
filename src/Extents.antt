-- ===== src/Extents.antt =====
-- ExtentAllocationStrategy (src/fsm/allocation/extent_allocation.cpp) over any implementation of the
-- BitVector interface: which blocks are handed out, as a list of extents for each handle. The
-- std::map is an association list with one entry for a key.
pub mod Cover
mod Tests
use succinct_filesystem.Base.{
  ℕ, zero, suc, ◌+◌, ◌-◌, ◌/◌, ◌≤◌, ◌<◌, Bool, true, false, not, List, [], ◌∷◌, ◌++◌, Option, none,
  some, ltb, leb, ◌==◌, if◌then◌else◌,
}
use succinct_filesystem.BitVector.{BitVector}
use succinct_filesystem.BestFit
use succinct_filesystem.BestFit.{size_max, blocks_for}

pub record Extent : Type 0 where
  pub start_block : ℕ
  pub num_blocks : ℕ

-- `extent_map.find(handle)`, with `none` for `end()`.
pub find_extents : List (ℕ × List Extent) → ℕ → Option (List Extent)
find_extents [] handle = none
find_extents ((key, extents) ∷ map) handle =
    let rest = find_extents map handle in if key == handle then some extents else rest

pub erase_extents : List (ℕ × List Extent) → ℕ → List (ℕ × List Extent)
erase_extents [] handle = []
erase_extents ((key, extents) ∷ map) handle =
    let rest = erase_extents map handle in if key == handle then rest else (key, extents) ∷ rest

-- `extent_map[handle] = extents`
pub store_extents : List (ℕ × List Extent) → ℕ → List Extent → List (ℕ × List Extent)
store_extents map handle extents = (handle, extents) ∷ erase_extents map handle

-- The variables of the search, with the bitmap that it changes.
pub record ExtentSearch (B : BitVector) : Type 0 where
  pub block_bitmap : B.Carrier
  pub extents : List Extent
  pub blocks_allocated : ℕ
  pub current_start : ℕ
  pub current_size : ℕ

pub record ExtentAllocation (B : BitVector) : Type 0 where
  pub block_bitmap : B.Carrier
  pub extent_map : List (ℕ × List Extent)

module _ (B : BitVector) where
  -- One round of the search, at block `i`. A run that is too small is not reset.
  pub search_block : ℕ → ℕ → ExtentSearch B → ExtentSearch B
  search_block required_blocks i s =
      if not (B.access s.block_bitmap i)
      then record s {
        current_start = if s.current_start == size_max then i else s.current_start;
        current_size = s.current_size + 1;
      }
      else if ltb ((required_blocks - s.blocks_allocated) / 3) s.current_size
      then record {
        block_bitmap = BestFit.set_blocks B s.current_size s.block_bitmap s.current_start true;
        extents =
            s.extents ++ record { start_block = s.current_start; num_blocks = s.current_size } ∷ [];
        blocks_allocated = s.blocks_allocated + s.current_size;
        current_start = size_max;
        current_size = 0;
      }
      else s

  -- The loop over the blocks, with the rounds left first; it ends early with enough blocks.
  pub search : ℕ → ℕ → ℕ → ExtentSearch B → ExtentSearch B
  search zero required_blocks i s = s
  search (suc rounds) required_blocks i s =
      let rest = search rounds required_blocks (i + 1) (search_block required_blocks i s) in
      if ltb s.blocks_allocated required_blocks then rest else s

  -- The blocks that are still missing are appended, behind the free blocks at the end if there are.
  pub append_extent : ℕ → ℕ → ExtentSearch B → B.Carrier × List Extent
  append_extent required_blocks num_blocks s =
      let remaining = required_blocks - s.blocks_allocated in
      let start = num_blocks - s.current_size in
      let total_size = s.current_size + remaining in
      if ltb 0 s.current_size
      then (
        BestFit.append_blocks B (start + total_size - num_blocks)
            (BestFit.set_blocks B (num_blocks - start) s.block_bitmap start true) num_blocks,
        s.extents ++ record { start_block = start; num_blocks = total_size } ∷ [],
      )
      else (
        BestFit.append_blocks B remaining s.block_bitmap num_blocks,
        s.extents ++ record { start_block = num_blocks; num_blocks = remaining } ∷ [],
      )

  pub allocate_extents : B.Carrier → ℕ → B.Carrier × List Extent
  allocate_extents block_bitmap required_blocks =
      let num_blocks = B.size block_bitmap in
      let s = search (num_blocks - 1) required_blocks 1 (record {
        block_bitmap = block_bitmap;
        extents = [];
        blocks_allocated = 0;
        current_start = size_max;
        current_size = 0;
      }) in
      if ltb s.blocks_allocated required_blocks
      then append_extent required_blocks num_blocks s
      else (s.block_bitmap, s.extents)

  pub create_extent_allocation : ExtentAllocation B
  create_extent_allocation = record {
    block_bitmap = B.insert (B.create_bitvector 0) 0 true;
    extent_map = [];
  }

  -- `none` is the undefined read of `extents[0]` of no extents.
  pub allocate : ℕ → ExtentAllocation B → ℕ → Option (ExtentAllocation B × ℕ)
  allocate block_size a size =
      let given = allocate_extents a.block_bitmap (blocks_for block_size size) in
      elim given.1 [
        | [] ↦ none
        | first ∷ others ↦ some (
          record {
            block_bitmap = given.0;
            extent_map = store_extents a.extent_map first.start_block (first ∷ others);
          },
          first.start_block,
        )
      ]

  pub free_extents : List Extent → B.Carrier → B.Carrier
  free_extents [] block_bitmap = block_bitmap
  free_extents (extent ∷ extents) block_bitmap =
      free_extents extents
        (BestFit.set_blocks B extent.num_blocks block_bitmap extent.start_block false)

  pub free : ExtentAllocation B → ℕ → ExtentAllocation B
  free a handle = elim (find_extents a.extent_map handle) [
    | none ↦ a
    | some extents ↦ record {
      block_bitmap = free_extents extents a.block_bitmap;
      extent_map = erase_extents a.extent_map handle;
    }
  ]

  -- The loop of a shrinking resize: the extents that are kept, and the rest freed.
  pub shrink_extents : List Extent → ℕ → B.Carrier → B.Carrier × List Extent
  shrink_extents [] blocks_to_keep block_bitmap = (block_bitmap, [])
  shrink_extents (extent ∷ extents) blocks_to_keep block_bitmap =
      let whole = shrink_extents extents (blocks_to_keep - extent.num_blocks) block_bitmap in
      let part = shrink_extents extents 0 (
        BestFit.set_blocks B (extent.num_blocks - blocks_to_keep) block_bitmap
          (extent.start_block + blocks_to_keep) false) in
      let nothing =
        shrink_extents extents blocks_to_keep
          (BestFit.set_blocks B extent.num_blocks block_bitmap extent.start_block false) in
      if leb extent.num_blocks blocks_to_keep
      then (whole.0, extent ∷ whole.1)
      else if ltb 0 blocks_to_keep
      then (
        part.0,
        record { start_block = extent.start_block; num_blocks = blocks_to_keep } ∷ part.1,
      )
      else nothing

  -- `none` is the undefined use of `extent_map.end()`.
  pub resize : ℕ → ExtentAllocation B → ℕ → ℕ → ℕ → Option (ExtentAllocation B × ℕ)
  resize block_size a handle old_size new_size =
      let required_old_blocks = blocks_for block_size old_size in
      let required_new_blocks = blocks_for block_size new_size in
      let given = allocate_extents a.block_bitmap (required_new_blocks - required_old_blocks) in
      if leb required_new_blocks required_old_blocks
      then elim (find_extents a.extent_map handle) [
        | none ↦ none
        | some extents ↦
            let kept = shrink_extents extents required_new_blocks a.block_bitmap in
            some (
              record {
                block_bitmap = kept.0;
                extent_map = store_extents a.extent_map handle kept.1;
              },
              handle,
            )
      ]
      else some (
        record {
          block_bitmap = given.0;
          extent_map = elim (find_extents a.extent_map handle) [
            | none ↦ a.extent_map
            | some extents ↦ store_extents a.extent_map handle (extents ++ given.1)
          ];
        },
        handle,
      )

  pub get_total_blocks : ExtentAllocation B → ℕ
  get_total_blocks a = B.size a.block_bitmap

  pub get_used_blocks : ExtentAllocation B → ℕ
  get_used_blocks a = B.rank1 a.block_bitmap (B.size a.block_bitmap - 1)
