-- ===== src/BestFit/Manager.antt =====
-- BestFitAllocationStrategy as a whole (src/fsm/allocation/best_fit_allocation.cpp): the bitmap and
-- the block device, and resize, which moves the bytes where it cannot extend in place.
pub mod Content
pub mod Separate
pub mod Allotted
mod Tests
use succinct_filesystem.Base.{ℕ, ◌+◌, ◌-◌, ◌≤◌, ◌<◌, Bool, true, false, List, leb, if◌then◌else◌}
use succinct_filesystem.BitVector.{BitVector}
use succinct_filesystem.Device.{BlockDevice}
use succinct_filesystem.BestFit
use succinct_filesystem.BestFit.{blocks_for}
use succinct_filesystem.BestFit.Transfer

pub record BestFitAllocation (B : BitVector) (V : BlockDevice) : Type 0 where
  pub block_bitmap : B.Carrier
  pub block_device : V.Carrier

module _ (B : BitVector) (V : BlockDevice) where
  pub allocate : BestFitAllocation B V → ℕ → BestFitAllocation B V × ℕ
  allocate a size =
      let given = BestFit.allocate B V.block_size a.block_bitmap size in
      (record a { block_bitmap = given.0 }, given.1)

  pub free : BestFitAllocation B V → ℕ → ℕ → BestFitAllocation B V
  free a handle size = record a {
    block_bitmap = BestFit.free B V.block_size a.block_bitmap handle size;
  }

  pub read : BestFitAllocation B V → ℕ → ℕ → ℕ → List ℕ
  read a handle size offset = Transfer.read V a.block_device handle size offset

  pub write : BestFitAllocation B V → ℕ → List ℕ → ℕ → BestFitAllocation B V
  write a handle buffer offset = record a {
    block_device = Transfer.write V a.block_device handle buffer offset;
  }

  -- The end of resize: a new allocation that the old bytes are copied to.
  pub move : BestFitAllocation B V → ℕ → ℕ → ℕ → BestFitAllocation B V × ℕ
  move a handle old_size new_size =
      let given = allocate a new_size in
      let buffer = read given.0 handle old_size 0 in
      (free (write given.0 given.1 buffer 0) handle old_size, given.1)

  pub resize : BestFitAllocation B V → ℕ → ℕ → ℕ → BestFitAllocation B V × ℕ
  resize a handle old_size new_size =
      let old_blocks = blocks_for V.block_size old_size in
      let new_blocks = blocks_for V.block_size new_size in
      let can_extend =
        BestFit.all_free B (new_blocks - old_blocks) a.block_bitmap (handle + old_blocks) in
      if leb new_blocks old_blocks
      then (
        record a {
          block_bitmap =
              BestFit.set_blocks B (old_blocks - new_blocks) a.block_bitmap (handle + new_blocks)
                false;
        },
        handle,
      )
      else if can_extend
      then (
        record a {
          block_bitmap =
              BestFit.set_blocks B (new_blocks - old_blocks) a.block_bitmap (handle + old_blocks)
                true;
        },
        handle,
      )
      else move a handle old_size new_size

  pub get_total_blocks : BestFitAllocation B V → ℕ
  get_total_blocks a = BestFit.get_total_blocks B a.block_bitmap

  pub get_used_blocks : BestFitAllocation B V → ℕ
  get_used_blocks a = BestFit.get_used_blocks B a.block_bitmap
