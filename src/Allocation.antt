-- ===== src/Allocation.antt =====
-- The abstract class AllocationManager (src/fsm/allocation/allocation_manager.hpp) with the block
-- device behind it: its operations, and what the file system manager relies on, which is what the
-- best-fit allocation that it mounts promises.
pub mod Apart
use succinct_filesystem.Base.{ℕ, ◌<◌, ◌≡◌, List}
use succinct_filesystem.Base.Seq.{length}

pub record AllocationManager : Type 1 where
  pub Carrier : Type 0
  pub block_size : ℕ
  pub allocate : Carrier → ℕ → Carrier × ℕ
  pub free : Carrier → ℕ → ℕ → Carrier
  -- The handle, the size and the offset of what is read.
  pub read : Carrier → ℕ → ℕ → ℕ → List ℕ
  -- The handle, the bytes and the offset of what is written.
  pub write : Carrier → ℕ → List ℕ → ℕ → Carrier
  pub resize : Carrier → ℕ → ℕ → ℕ → Carrier × ℕ
  pub get_total_blocks : Carrier → ℕ
  pub get_used_blocks : Carrier → ℕ
  pub block_size-pos : 0 < block_size
  pub length-read :
      (a : Carrier) (handle size offset : ℕ) → length (read a handle size offset) ≡ size
  pub read-write :
      (a : Carrier) (handle : ℕ) (bytes : List ℕ) (offset : ℕ)
      → read (write a handle bytes offset) handle (length bytes) offset ≡ bytes
