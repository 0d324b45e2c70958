-- ===== src/BestFit/Transfer/Laws.antt =====
-- What read and write of the best-fit allocation do (src/fsm/allocation/best_fit_allocation.cpp):
-- what is written is read back, and only the blocks of the allocation change.
use succinct_filesystem.Base.{
  ℕ, zero, suc, ◌+◌, ◌-◌, ◌/◌, ◌%◌, ◌≤◌, ◌<◌, ◌≡◌, ◌⊎◌, inl, inr, sym, ap, ap₂, ◌∙◌, List, ◌++◌,
  min, arith,
}
use native.Mathlib.Decide.{dec_lt}
use native.Mathlib.Nat.{mod-lt}
use succinct_filesystem.Base.Seq.{
  length, take, drop, length-drop, length-take, length-append, drop_all,
}
use succinct_filesystem.Base.Bytes.{take-drop-memcpy, take-drop, drop-drop}
use succinct_filesystem.Device.{BlockDevice}
use succinct_filesystem.BestFit.Transfer
use succinct_filesystem.BestFit.Transfer.Rounds.{
  ltb-yes, ltb-no, index, within, step, chunk, temp, block, length-chunk, chunk_fits, length-block,
  kept, index-next, step_pos,
}

length-read_loop :
    (V : BlockDevice) (fuel : ℕ) (device : V.Carrier) (handle size offset moved : ℕ)
    → size ≤ moved + fuel
    → length (Transfer.read_loop V fuel device handle size offset moved) ≡ size - moved
unfolding Transfer.read_loop
length-read_loop V zero device handle size offset moved enough = omega (arith, enough)
length-read_loop V (suc fuel) device handle size offset moved enough = elim (dec_lt moved size) [
  | yes lt ↦
      let cur = offset + moved in
      let n = min (size - moved) (V.block_size - cur % V.block_size) in
      let bytes = V.read_block device (handle + cur / V.block_size) in
      let pos : 0 < n = omega (arith, mod-lt cur V.block_size-pos) in
      rw (ltb-yes moved size lt) (
        omega (
          arith,
          length-append (take n (drop (cur % V.block_size) bytes))
              (Transfer.read_loop V fuel device handle size offset (moved + n)),
          length-take n (drop (cur % V.block_size) bytes),
          length-drop (cur % V.block_size) bytes,
          V.length-read device (handle + cur / V.block_size),
          mod-lt cur V.block_size-pos,
          length-read_loop V fuel device handle size offset (moved + n)
              (omega (arith, enough, pos)),
        ))
  | no done ↦ rw (ltb-no moved size done) (omega (arith, done))
]

pub length-read :
    (V : BlockDevice) (device : V.Carrier) (handle size offset : ℕ)
    → length (Transfer.read V device handle size offset) ≡ size
unfolding Transfer.read
length-read V device handle size offset =
    omega (arith, length-read_loop V size device handle size offset 0 (omega arith))

module _ (V : BlockDevice) (handle : ℕ) (buffer : List ℕ) (offset : ℕ) where
  -- The first chunk that is read is the first that was written.
  first_chunk :
      (fuel : ℕ) (device : V.Carrier) (moved : ℕ)
      → let at = index V handle buffer offset moved in
        let n = step V handle buffer offset moved in
        let written = block V handle buffer offset device moved in
        take n (
          drop (within V handle buffer offset moved) (
            V.read_block
              (Transfer.write_loop V fuel
                (V.write_block device at written)
                handle
                buffer
                offset
                (moved + n))
              at))
        ≡ chunk V handle buffer offset moved
  first_chunk fuel device moved =
      let at = index V handle buffer offset moved in
      let n = step V handle buffer offset moved in
      let written = block V handle buffer offset device moved in
      let same =
        kept V handle buffer offset fuel (V.write_block device at written) (moved + n) at
          (inl (λ more. omega (arith, index-next V handle buffer offset moved more))) in
      ap (λ bytes. take n (drop (within V handle buffer offset moved) bytes))
        (same
          ∙ V.read-write_self device at written (length-block V handle buffer offset device moved))
      ∙ take-drop-memcpy (temp V handle buffer offset device moved)
          (within V handle buffer offset moved) n (chunk V handle buffer offset moved)
          (chunk_fits V handle buffer offset device moved)
          (sym (length-chunk V handle buffer offset moved))

  loops :
      (fuel : ℕ) (device : V.Carrier) (moved : ℕ)
      → length buffer ≤ moved + fuel
      → Transfer.read_loop V fuel
          (Transfer.write_loop V fuel device handle buffer offset moved)
          handle
          (length buffer)
          offset
          moved
        ≡ drop moved buffer
  unfolding Transfer.read_loop Transfer.write_loop
  loops zero device moved enough = sym (drop_all moved buffer (omega (arith, enough)))
  loops (suc fuel) device moved enough = elim (dec_lt moved (length buffer)) [
    | yes lt ↦
        let n = step V handle buffer offset moved in
        let next =
          V.write_block device (index V handle buffer offset moved)
            (block V handle buffer offset device moved) in
        rw (ltb-yes moved (length buffer) lt) (
          ap₂ ◌++◌ (first_chunk fuel device moved) (
            loops fuel next (moved + n)
              (omega (arith, enough, step_pos V handle buffer offset moved lt)))
          ∙ ap (λ rest. chunk V handle buffer offset moved ++ rest) (sym (drop-drop moved n buffer))
          ∙ take-drop n (drop moved buffer))
    | no done ↦
        rw (ltb-no moved (length buffer) done) (sym (drop_all moved buffer (omega (arith, done))))
  ]

  -- On every block device, what write has written is read back, whatever the handle, the offset and
  -- the size, be it across blocks or inside one.
  pub read-write :
      (device : V.Carrier)
      → Transfer.read V (Transfer.write V device handle buffer offset) handle (length buffer) offset
        ≡ buffer
  unfolding Transfer.read Transfer.write
  read-write device = loops (length buffer) device 0 (omega arith)

  -- A write changes no block before its first byte's, and none behind those that `offset + size`
  -- bytes of the allocation take.
  pub write-kept :
      (device : V.Carrier) (j : ℕ)
      → (j < handle + offset / V.block_size)
        ⊎ (handle + (offset + length buffer + V.block_size - 1) / V.block_size ≤ j)
      → V.read_block (Transfer.write V device handle buffer offset) j ≡ V.read_block device j
  unfolding Transfer.write
  write-kept device j away = kept V handle buffer offset (length buffer) device 0 j (elim away [
    | inl before ↦ inl (λ some_left. omega (
      arith,
      before,
      ap (λ (t : ℕ). t / V.block_size) {x = offset + 0} {y = offset} (omega arith),
    ))
    | inr behind ↦ inr behind
  ])
