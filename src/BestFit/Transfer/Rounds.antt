-- ===== src/BestFit/Transfer/Rounds.antt =====
-- One round of the loops of read and write (src/fsm/allocation/best_fit_allocation.cpp), and the
-- blocks that the rounds of write leave alone.
use succinct_filesystem.Base.{
  ℕ, zero, suc, ◌+◌, ◌-◌, ◌/◌, ◌%◌, ◌≤◌, ◌<◌, ◌≡◌, ◌≢◌, ◌⊎◌, inl, inr, refl, ap, ◌∙◌, List, not,
  ◌||◌, min, ltb, ◌==◌, if◌then◌else◌, true, false, arith, Bool-cases,
}
use native.Mathlib.Decide.{dec_lt}
use native.Mathlib.Nat.{mod-lt}
use succinct_filesystem.Base.Seq.{
  length, take, drop, replicate, length-take, length-drop, length-replicate,
}
use succinct_filesystem.Base.Bytes.{memcpy, length-memcpy}
use succinct_filesystem.Device.{BlockDevice}
use succinct_filesystem.BestFit.Transfer
use succinct_filesystem.BestFit.Transfer.Blocks.{next_block, block_inside}

pub ltb-yes : (a b : ℕ) → a < b → ltb a b ≡ true
ltb-yes a b h = ground arith

pub ltb-no : (a b : ℕ) → ¬ (a < b) → ltb a b ≡ false
ltb-no a b h = ground arith

module _ (V : BlockDevice) (handle : ℕ) (buffer : List ℕ) (offset : ℕ) where
  abbrev pub index : ℕ → ℕ
  index moved = handle + (offset + moved) / V.block_size

  abbrev pub within : ℕ → ℕ
  within moved = (offset + moved) % V.block_size

  abbrev pub step : ℕ → ℕ
  step moved = min (length buffer - moved) (V.block_size - within moved)

  abbrev pub chunk : ℕ → List ℕ
  chunk moved = take (step moved) (drop moved buffer)

  abbrev pub temp : V.Carrier → ℕ → List ℕ
  temp device moved =
      if not (within moved == 0) || ltb (step moved) V.block_size
      then V.read_block device (index moved)
      else replicate V.block_size 0

  pub length-temp : (device : V.Carrier) (moved : ℕ) → length (temp device moved) ≡ V.block_size
  length-temp device moved =
      elim (Bool-cases (not (within moved == 0) || ltb (step moved) V.block_size)) [
        | inl partial ↦ rw partial (V.length-read device (index moved))
        | inr whole ↦ rw whole (length-replicate V.block_size 0)
      ]

  pub step_pos : (moved : ℕ) → moved < length buffer → 0 < step moved
  step_pos moved lt = omega (arith, mod-lt (offset + moved) V.block_size-pos)

  pub length-chunk : (moved : ℕ) → length (chunk moved) ≡ step moved
  length-chunk moved =
      omega (arith, length-take (step moved) (drop moved buffer), length-drop moved buffer)

  abbrev pub block : V.Carrier → ℕ → List ℕ
  block device moved = memcpy (temp device moved) (within moved) (chunk moved)

  pub chunk_fits :
      (device : V.Carrier) (moved : ℕ)
      → within moved + length (chunk moved) ≤ length (temp device moved)
  chunk_fits device moved = omega (
    arith,
    length-chunk moved,
    length-temp device moved,
    mod-lt (offset + moved) V.block_size-pos,
  )

  pub length-block : (device : V.Carrier) (moved : ℕ) → length (block device moved) ≡ V.block_size
  length-block device moved =
      length-memcpy (temp device moved) (within moved) (chunk moved) (chunk_fits device moved)
      ∙ length-temp device moved

  -- Unless the loop ends behind it, a round fills its block up to the end.
  pub index-next :
      (moved : ℕ)
      → moved + step moved < length buffer
      → index (moved + step moved) ≡ index moved + 1
  index-next moved more =
      let full : step moved ≡ V.block_size - within moved = omega (arith, more) in
      let next = next_block (offset + moved) (step moved) V.block_size V.block_size-pos full in
      let same : offset + (moved + step moved) ≡ offset + moved + step moved = omega arith in
      omega (arith, next, ap (λ (t : ℕ). t / V.block_size) same)

  pub index-inside :
      (moved : ℕ)
      → moved < length buffer
      → index moved < handle + (offset + length buffer + V.block_size - 1) / V.block_size
  index-inside moved lt = omega (
    arith,
    block_inside (offset + moved) (offset + length buffer) V.block_size V.block_size-pos
        (omega arith),
  )

  -- The loop leaves the blocks before the place where it stands, and those behind the end.
  pub kept :
      (fuel : ℕ) (device : V.Carrier) (moved j : ℕ)
      → (moved < length buffer → j < index moved)
        ⊎ (handle + (offset + length buffer + V.block_size - 1) / V.block_size ≤ j)
      → V.read_block (Transfer.write_loop V fuel device handle buffer offset moved) j
        ≡ V.read_block device j
  unfolding Transfer.write_loop
  kept zero device moved j away = refl
  kept (suc fuel) device moved j away = elim (dec_lt moved (length buffer)) [
    | yes lt ↦
        let next = V.write_block device (index moved) (block device moved) in
        let other : j ≢ index moved = λ e. elim away [
          | inl before ↦ absurd (omega (arith, e, before lt))
          | inr behind ↦ absurd (omega (arith, e, behind, index-inside moved lt))
        ] in
        let away' : (moved + step moved < length buffer → j < index (moved + step moved))
            ⊎ (handle + (offset + length buffer + V.block_size - 1) / V.block_size ≤ j) =
          elim away [
            | inl before ↦ inl (λ more. omega (arith, before lt, index-next moved more))
            | inr behind ↦ inr behind
          ] in
        rw (ltb-yes moved (length buffer) lt) (
          kept fuel next (moved + step moved) j away'
          ∙ V.read-write_ne device (index moved) j (block device moved) other)
    | no done ↦ rw (ltb-no moved (length buffer) done) refl
  ]
