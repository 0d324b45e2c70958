-- ===== src/BestFit.antt =====
-- BestFitAllocationStrategy (src/fsm/allocation/best_fit_allocation.cpp) over any implementation of
-- the BitVector interface: which blocks are handed out and given back.
-- SIZE_MAX, which the source uses for "none yet", is written out.
pub mod Scan
pub mod Handout
pub mod Transfer
pub mod Manager
mod Tests
use succinct_filesystem.Base.{
  ℕ, zero, suc, ◌+◌, ◌-◌, ◌*◌, ◌/◌, ◌^◌, ◌≤◌, ◌<◌, Bool, true, false, ◌&&◌, List, [], ◌∷◌, ltb, leb,
  ◌==◌, if◌then◌else◌,
}
use succinct_filesystem.BitVector.{BitVector}

abbrev pub size_max : ℕ
size_max = 2 ^ 64 - 1

-- `(size + block_size - 1) / block_size`
unfoldable pub blocks_for : ℕ → ℕ → ℕ
blocks_for block_size size = (size + block_size - 1) / block_size

-- The variables of the scan of allocate.
pub record Search : Type 0 where
  pub best_start : ℕ
  pub best_size : ℕ
  pub current_start : ℕ
  pub current_size : ℕ

pub start_search : Search
start_search = record {
  best_start = size_max;
  best_size = size_max;
  current_start = size_max;
  current_size = 0;
}

-- One round of the scan, at block `i`, whose bit is `used`.
pub scan_block : ℕ → ℕ → Bool → Search → Search
scan_block required_blocks i used s =
    if used
    then (if leb required_blocks s.current_size && ltb s.current_size s.best_size
        then record {
          best_start = s.current_start;
          best_size = s.current_size;
          current_start = size_max;
          current_size = 0;
        }
        else record s { current_start = size_max; current_size = 0 })
    else record s {
      current_start = if s.current_start == size_max then i else s.current_start;
      current_size = s.current_size + 1;
    }

module _ (B : BitVector) where
  -- `for (i = ...; i < num_blocks; i++)`, with the rounds left first.
  pub scan : ℕ → B.Carrier → ℕ → ℕ → Search → Search
  scan zero bitmap required_blocks i s = s
  scan (suc rounds) bitmap required_blocks i s =
      scan rounds bitmap required_blocks (i + 1)
        (scan_block required_blocks i (B.access bitmap i) s)

  -- The start that the scan and the check behind it have found, SIZE_MAX for none.
  pub find_start : B.Carrier → ℕ → ℕ
  find_start bitmap required_blocks =
      let s = scan (B.size bitmap - 1) bitmap required_blocks 1 start_search in
      if leb required_blocks s.current_size && ltb s.current_size s.best_size
      then s.current_start
      else s.best_start

  -- The loops that write a bit to the blocks from `i` on, with the rounds left first.
  pub set_blocks : ℕ → B.Carrier → ℕ → Bool → B.Carrier
  set_blocks zero bitmap i value = bitmap
  set_blocks (suc rounds) bitmap i value =
      set_blocks rounds (B.set_bit bitmap i value) (i + 1) value

  pub append_blocks : ℕ → B.Carrier → ℕ → B.Carrier
  append_blocks zero bitmap i = bitmap
  append_blocks (suc rounds) bitmap i = append_blocks rounds (B.insert bitmap i true) (i + 1)

  pub create_bitmap : B.Carrier
  create_bitmap = B.insert (B.create_bitvector 0) 0 true

  pub allocate : ℕ → B.Carrier → ℕ → B.Carrier × ℕ
  allocate block_size bitmap size =
      let required_blocks = blocks_for block_size size in
      let num_blocks = B.size bitmap in
      let best_start = find_start bitmap required_blocks in
      if best_start == size_max
      then (append_blocks required_blocks bitmap num_blocks, num_blocks)
      else (set_blocks required_blocks bitmap best_start true, best_start)

  pub free : ℕ → B.Carrier → ℕ → ℕ → B.Carrier
  free block_size bitmap handle size = set_blocks (blocks_for block_size size) bitmap handle false

  -- The loop of resize that looks for a used block among the next ones.
  pub all_free : ℕ → B.Carrier → ℕ → Bool
  all_free zero bitmap i = true
  all_free (suc rounds) bitmap i =
      let rest = all_free rounds bitmap (i + 1) in if B.access bitmap i then false else rest

  pub get_total_blocks : B.Carrier → ℕ
  get_total_blocks bitmap = B.size bitmap

  pub get_used_blocks : B.Carrier → ℕ
  get_used_blocks bitmap = B.rank1 bitmap (B.size bitmap - 1)
