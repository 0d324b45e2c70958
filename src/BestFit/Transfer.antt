-- ===== src/BestFit/Transfer.antt =====
-- The bytes that BestFitAllocationStrategy moves (src/fsm/allocation/best_fit_allocation.cpp, read
-- and write): a loop over the blocks of a contiguous allocation, on any block device. The loops run
-- on fuel, one unit for each byte, which is enough since a round moves at least one.
pub mod Blocks
pub mod Rounds
pub mod Laws
pub mod Apart
mod Tests
use succinct_filesystem.Base.{
  ℕ, zero, suc, ◌+◌, ◌-◌, ◌/◌, ◌%◌, ◌≤◌, ◌<◌, List, [], ◌++◌, not, ◌||◌, min, ltb, ◌==◌,
  if◌then◌else◌,
}
use succinct_filesystem.Base.Seq.{length, take, drop, replicate}
use succinct_filesystem.Base.Bytes.{memcpy}
use succinct_filesystem.Device.{BlockDevice}

module _ (V : BlockDevice) where
  -- `while (bytes_read < size)`; the result is what is copied to the buffer from `bytes_read` on.
  pub read_loop : ℕ → V.Carrier → ℕ → ℕ → ℕ → ℕ → List ℕ
  read_loop zero device handle size offset bytes_read = []
  read_loop (suc fuel) device handle size offset bytes_read =
      let current_offset = offset + bytes_read in
      let block_index = handle + current_offset / V.block_size in
      let block_offset = current_offset % V.block_size in
      let to_read = min (size - bytes_read) (V.block_size - block_offset) in
      let rest = read_loop fuel device handle size offset (bytes_read + to_read) in
      if ltb bytes_read size
      then take to_read (drop block_offset (V.read_block device block_index)) ++ rest
      else []

  pub read : V.Carrier → ℕ → ℕ → ℕ → List ℕ
  read device handle size offset = read_loop size device handle size offset 0

  -- `while (bytes_written < size)`, where the buffer has `size` bytes. A block that is overwritten
  -- whole is not read before.
  pub write_loop : ℕ → V.Carrier → ℕ → List ℕ → ℕ → ℕ → V.Carrier
  write_loop zero device handle buffer offset bytes_written = device
  write_loop (suc fuel) device handle buffer offset bytes_written =
      let size = length buffer in
      let current_offset = offset + bytes_written in
      let block_index = handle + current_offset / V.block_size in
      let block_offset = current_offset % V.block_size in
      let to_write = min (size - bytes_written) (V.block_size - block_offset) in
      let temp =
        if not (block_offset == 0) || ltb to_write V.block_size
        then V.read_block device block_index
        else replicate V.block_size 0 in
      let block = memcpy temp block_offset (take to_write (drop bytes_written buffer)) in
      let rest =
        write_loop fuel (V.write_block device block_index block) handle buffer offset
          (bytes_written + to_write) in
      if ltb bytes_written size then rest else device

  pub write : V.Carrier → ℕ → List ℕ → ℕ → V.Carrier
  write device handle buffer offset = write_loop (length buffer) device handle buffer offset 0
