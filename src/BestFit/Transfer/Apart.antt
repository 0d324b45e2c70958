-- ===== src/BestFit/Transfer/Apart.antt =====
-- Allocations that share no block do not disturb each other
-- (src/fsm/allocation/best_fit_allocation.cpp, read and write).
use succinct_filesystem.Base.{
  ℕ, zero, suc, ◌+◌, ◌-◌, ◌/◌, ◌%◌, ◌≤◌, ◌<◌, ◌≡◌, ◌⊎◌, inl, inr, refl, ap, ap₂, List, ◌++◌, min,
  arith,
}
use native.Mathlib.Decide.{dec_lt}
use succinct_filesystem.Base.Seq.{length, take, drop}
use succinct_filesystem.Device.{BlockDevice}
use succinct_filesystem.BestFit.{blocks_for}
use succinct_filesystem.BestFit.Transfer
use succinct_filesystem.BestFit.Transfer.Rounds.{ltb-yes, ltb-no}
use succinct_filesystem.BestFit.Transfer.Blocks.{block_inside}
use succinct_filesystem.BestFit.Transfer.Laws.{write-kept}

module _ (V : BlockDevice) where
  -- A read depends on the blocks of its allocation only.
  read_loop-cong :
      (fuel : ℕ) (d d' : V.Carrier) (handle size offset moved : ℕ)
      → ((j : ℕ)
          → handle ≤ j
          → j < handle + (offset + size + V.block_size - 1) / V.block_size
          → V.read_block d j ≡ V.read_block d' j)
      → Transfer.read_loop V fuel d handle size offset moved
        ≡ Transfer.read_loop V fuel d' handle size offset moved
  unfolding Transfer.read_loop
  read_loop-cong zero d d' handle size offset moved same = refl
  read_loop-cong (suc fuel) d d' handle size offset moved same = elim (dec_lt moved size) [
    | yes lt ↦
        let n = min (size - moved) (V.block_size - (offset + moved) % V.block_size) in
        let inside =
          block_inside (offset + moved) (offset + size) V.block_size V.block_size-pos
            (omega arith) in
        rw (ltb-yes moved size lt) (
          ap₂ ◌++◌
            (ap (λ bytes. take n (drop ((offset + moved) % V.block_size) bytes))
              (same (handle + (offset + moved) / V.block_size) (omega arith)
                (omega (arith, inside))))
            (read_loop-cong fuel d d' handle size offset (moved + n) same))
    | no done ↦ rw (ltb-no moved size done) refl
  ]

  -- A write to one allocation leaves what another reads as it was, if the blocks of the two, for the
  -- bytes up to the end of the write and of the read, do not overlap.
  pub read-write_apart :
      (device : V.Carrier) (handle : ℕ) (buffer : List ℕ) (offset other size from : ℕ)
      → (handle + blocks_for V.block_size (offset + length buffer) ≤ other)
        ⊎ (other + blocks_for V.block_size (from + size) ≤ handle)
      → Transfer.read V (Transfer.write V device handle buffer offset) other size from
        ≡ Transfer.read V device other size from
  unfolding Transfer.read blocks_for
  read-write_apart device handle buffer offset other size from apart =
      read_loop-cong size (Transfer.write V device handle buffer offset) device other size from 0
        (λ j low high. write-kept V handle buffer offset device j (elim apart [
          | inl behind ↦ inr (omega (arith, behind, low))
          | inr before ↦ inl (omega (arith, before, high))
        ]))
