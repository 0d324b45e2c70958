-- ===== src/Device/Memory.antt =====
-- A block device in memory, to run the code on. Blocks hold zeros until they are written.
use succinct_filesystem.Base.{
  refl, false, ℕ, suc, ◌<◌, ◌≡◌, ◌≢◌, List, ◌++◌, arith, if◌then◌else◌, ◌==◌, ==_iff,
}
use succinct_filesystem.Base.Seq.{
  length, take, replicate, length-take, length-append, length-replicate,
}
use succinct_filesystem.Base.Bytes.{take-append}
use succinct_filesystem.Device.{BlockDevice}

pub write_memory : (ℕ → List ℕ) → ℕ → List ℕ → ℕ → List ℕ
write_memory blocks i buffer j = if j == i then buffer else blocks j

pub read_memory : ℕ → (ℕ → List ℕ) → ℕ → List ℕ
read_memory block_size blocks i = take block_size (blocks i ++ replicate block_size 0)

pub length-read_memory :
    (block_size : ℕ) (blocks : ℕ → List ℕ) (i : ℕ)
    → length (read_memory block_size blocks i) ≡ block_size
unfolding read_memory
length-read_memory block_size blocks i = omega (
  arith,
  length-take block_size (blocks i ++ replicate block_size 0),
  length-append (blocks i) (replicate block_size 0),
  length-replicate {A = ℕ} block_size 0,
)

pub read_memory-write_self :
    (block_size : ℕ) (blocks : ℕ → List ℕ) (i : ℕ) (buffer : List ℕ)
    → length buffer ≡ block_size
    → read_memory block_size (write_memory blocks i buffer) i ≡ buffer
unfolding read_memory write_memory
read_memory-write_self block_size blocks i buffer e =
    rw ((==_iff i i).1 refl)
      (take-append block_size buffer (replicate block_size 0) (omega (arith, e)))

pub read_memory-write_ne :
    (block_size : ℕ) (blocks : ℕ → List ℕ) (i j : ℕ) (buffer : List ℕ)
    → j ≢ i
    → read_memory block_size (write_memory blocks i buffer) j ≡ read_memory block_size blocks j
unfolding read_memory write_memory
read_memory-write_ne block_size blocks i j buffer ne =
    let other : (j == i) ≡ false = ground (arith, ne) in rw other refl

pub zero_lt : (n : ℕ) → 0 < suc n
zero_lt n = omega arith

-- Blocks of `n + 1` bytes.
abbrev pub memory_device : ℕ → BlockDevice
memory_device n = record {
  Carrier = ℕ → List ℕ;
  block_size = suc n;
  read_block = read_memory (suc n);
  write_block = write_memory;
  block_size-pos = zero_lt n;
  length-read = length-read_memory (suc n);
  read-write_self = read_memory-write_self (suc n);
  read-write_ne = read_memory-write_ne (suc n);
}
