-- ===== src/BestFit/Transfer/Tests.antt =====
-- Runs of read and write of the best-fit allocation, on blocks of four bytes.
use succinct_filesystem.Base.{ℕ, ◌≡◌, ◌+◌, ◌≤◌, inl, inr, List, [], ◌∷◌, arith}
use succinct_filesystem.Device.{BlockDevice}
use succinct_filesystem.Device.Memory.{memory_device}
use succinct_filesystem.BestFit.{blocks_for}
use succinct_filesystem.BestFit.Transfer
use succinct_filesystem.BestFit.Transfer.Laws.{read-write, write-kept}
use succinct_filesystem.BestFit.Transfer.Apart.{read-write_apart}

abbrev blank : ℕ → List ℕ
blank i = []

abbrev text : List ℕ
text = 1 ∷ 2 ∷ 3 ∷ 4 ∷ 5 ∷ 6 ∷ []

read-write_example :
    Transfer.read (memory_device 3) (Transfer.write (memory_device 3) blank 1 text 3) 1 6 3 ≡ text
read-write_example = read-write (memory_device 3) 1 text 3 blank

write-kept_example :
    BlockDevice.read_block (memory_device 3) (Transfer.write (memory_device 3) blank 1 text 3) 0
    ≡ BlockDevice.read_block (memory_device 3) blank 0
write-kept_example = write-kept (memory_device 3) 1 text 3 blank 0 (inl (omega arith))

two_blocks : 2 + blocks_for 4 (1 + 5) ≤ 4
unfolding blocks_for
two_blocks = omega arith

read-write_apart_example :
    Transfer.read (memory_device 3) (Transfer.write (memory_device 3) blank 4 text 0) 2 5 1
    ≡ Transfer.read (memory_device 3) blank 2 5 1
read-write_apart_example = read-write_apart (memory_device 3) blank 4 text 0 2 5 1 (inr two_blocks)
