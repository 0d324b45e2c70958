-- ===== src/Device.antt =====
-- The class BlockDevice (src/block_device/block_device.hpp) over the operating system's file: its
-- operations and what its comments document of them. The file itself is outside the repository.
pub mod Memory
use succinct_filesystem.Base.{ℕ, zero, ◌<◌, ◌≡◌, ◌≢◌, List}
use succinct_filesystem.Base.Seq.{length}

-- A byte is a number. A block that was never written holds some bytes, too.
pub record BlockDevice : Type 1 where
  pub Carrier : Type 0
  pub block_size : ℕ
  pub read_block : Carrier → ℕ → List ℕ
  pub write_block : Carrier → ℕ → List ℕ → Carrier
  pub block_size-pos : 0 < block_size
  pub length-read : (d : Carrier) (i : ℕ) → length (read_block d i) ≡ block_size
  pub read-write_self :
      (d : Carrier) (i : ℕ) (buffer : List ℕ)
      → length buffer ≡ block_size
      → read_block (write_block d i buffer) i ≡ buffer
  pub read-write_ne :
      (d : Carrier) (i j : ℕ) (buffer : List ℕ)
      → j ≢ i
      → read_block (write_block d i buffer) j ≡ read_block d j
