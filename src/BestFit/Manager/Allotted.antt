-- ===== src/BestFit/Manager/Allotted.antt =====
-- Allocations of any sizes side by side (src/fsm/allocation/best_fit_allocation.cpp): a new one shares
-- no block with those that there are, so that what is written to it is read by none of them.
use succinct_filesystem.Base.{
  ℕ, ◌+◌, ◌≤◌, ◌<◌, ◌≡◌, ◌⊎◌, inl, inr, ◌∙◌, Bool, true, false, List, [], ◌∷◌, arith,
}
use native.Mathlib.Decide.{dec_lt}
use succinct_filesystem.Base.Seq.{length, get_or}
use succinct_filesystem.Serial.Format.{All}
use succinct_filesystem.BitVector.{BitVector}
use succinct_filesystem.Device.{BlockDevice}
use succinct_filesystem.BestFit.{blocks_for, size_max}
use succinct_filesystem.BestFit.Handout.{Written, allocate_lem}
use succinct_filesystem.BestFit.Transfer.Apart.{read-write_apart}
use succinct_filesystem.BestFit.Manager
use succinct_filesystem.BestFit.Manager.{BestFitAllocation}
use succinct_filesystem.BestFit.Manager.Separate.{Used, blocks_mono, blocks-pos}

-- A handle, and how many bytes were asked for.
abbrev pub Allotment : Type 0
Allotment = ℕ × ℕ

-- The blocks of the two do not overlap.
abbrev pub Clear : ℕ → Allotment → Allotment → Type 0
Clear b g h = (g.0 + blocks_for b g.1 ≤ h.0) ⊎ (h.0 + blocks_for b h.1 ≤ g.0)

abbrev pub AllClear : ℕ → List Allotment → Type 0
AllClear b [] = Unit
AllClear b (h ∷ hs) = All (Clear b h) hs × AllClear b hs

-- A run that was free and one that was used have no block in common.
free-Clear :
    (bits : List Bool) (b : ℕ) (g h : Allotment)
    → 0 < blocks_for b g.1
    → 0 < blocks_for b h.1
    → ((j : ℕ) → h.0 ≤ j → j < h.0 + blocks_for b h.1 → get_or bits j false ≡ false)
    → Used bits (blocks_for b g.1) g.0
    → Clear b h g
free-Clear bits b g h some_blocks new_blocks clear used =
    elim (dec_lt h.0 (g.0 + blocks_for b g.1)) [
      | no before ↦ inr (omega arith)
      | yes below ↦ elim (dec_lt g.0 (h.0 + blocks_for b h.1)) [
        | no behind ↦ inl (omega arith)
        | yes above ↦ elim (dec_lt g.0 h.0) [
          | yes lt ↦
              let x = clear h.0 (omega arith) (omega arith) in
              let y = used h.0 (omega arith) below in absurd (cc (x, y))
          | no ge ↦
              let x = clear g.0 (omega arith) above in
              let y = used g.0 (omega arith) (omega arith) in absurd (cc (x, y))
        ]
      ]
    ]

-- A run stays used when another is written.
kept-Used :
    (before after : List Bool) (b : ℕ) (g h : Allotment)
    → Written before after h.0 (blocks_for b h.1) true
    → Clear b h g
    → Used before (blocks_for b g.1) g.0
    → Used after (blocks_for b g.1) g.0
kept-Used before after b g h w (inl d) used =
    λ j from to. w.kept j (inr (omega arith)) ∙ used j from to
kept-Used before after b g h w (inr d) used =
    λ j from to. w.kept j (inl (omega arith)) ∙ used j from to

module _ (B : BitVector) (V : BlockDevice) where
  -- An allocation of at least a byte, with its blocks in use.
  pub record IsAllotted (a : BestFitAllocation B V) (h : Allotment) : Type 0 where
    pub some_bytes : 0 < h.1
    pub used : Used (B.view a.block_bitmap) (blocks_for V.block_size h.1) h.0

  -- Allocations of any sizes have their blocks, and share none.
  pub record AreAllotted (a : BestFitAllocation B V) (hs : List Allotment) : Type 0 where
    pub valid : B.IsValid a.block_bitmap
    pub header : 0 < length (B.view a.block_bitmap)
    pub allotted : All (IsAllotted a) hs
    pub clear : AllClear V.block_size hs

  -- An allocation reads the same bytes in two states, wherever it reads within its size.
  abbrev pub ReadsSame : BestFitAllocation B V → BestFitAllocation B V → Allotment → Type 0
  ReadsSame a a' g =
      (size offset : ℕ)
      → offset + size ≤ g.1
      → Manager.read B V a' g.0 size offset ≡ Manager.read B V a g.0 size offset

  module _ (a : BestFitAllocation B V) (n : ℕ) (some_bytes : 0 < n)
      (valid : B.IsValid a.block_bitmap) (header : 0 < length (B.view a.block_bitmap))
      (few : length (B.view a.block_bitmap) < size_max) where
    abbrev given : BestFitAllocation B V × ℕ
    given = Manager.allocate B V a n

    given-Clear :
        (hs : List Allotment)
        → All (IsAllotted a) hs
        → All (Clear V.block_size (given.1, n)) hs × All (IsAllotted given.0) hs
    unfolding Manager.allocate
    given-Clear [] v = (tt, tt)
    given-Clear (h ∷ hs) v =
        let handed = allocate_lem B V.block_size a.block_bitmap n valid header few in
        let rest = given-Clear hs v.1 in
        let apart : Clear V.block_size (given.1, n) h =
          free-Clear (B.view a.block_bitmap) V.block_size h (given.1, n)
            (blocks-pos V.block_size h.1 V.block_size-pos (v.0).some_bytes)
            (blocks-pos V.block_size n V.block_size-pos some_bytes) handed.free_before (v.0).used in
        (
          (apart, rest.0),
          (
            record {
              some_bytes = (v.0).some_bytes;
              used =
                  kept-Used (B.view a.block_bitmap) (B.view (given.0).block_bitmap) V.block_size h
                    (given.1, n) handed.written apart (v.0).used;
            },
            rest.1,
          ),
        )

    new_same :
        (bytes : List ℕ) (offset : ℕ)
        → offset + length bytes ≤ n
        → (hs : List Allotment) → All (Clear V.block_size (given.1, n)) hs
        → All (ReadsSame a (Manager.write B V given.0 given.1 bytes offset)) hs
    unfolding Manager.allocate Manager.write Manager.read
    new_same bytes offset fits [] v = tt
    new_same bytes offset fits (g ∷ hs) v = (
      λ size from inside.
          let written = blocks_mono V.block_size (offset + length bytes) n V.block_size-pos fits in
          let seen = blocks_mono V.block_size (from + size) g.1 V.block_size-pos inside in
          read-write_apart V a.block_device given.1 bytes offset g.0 size from (elim v.0 [
            | inl before ↦ inl (omega (arith, before, written))
            | inr behind ↦ inr (omega (arith, behind, seen))
          ]),
      new_same bytes offset fits hs v.1,
    )

  -- The new allocation in front of the others.
  allotted_first :
      (a : BestFitAllocation B V) (hs : List Allotment) (n : ℕ)
      → AreAllotted a hs
      → length (B.view a.block_bitmap) < size_max
      → 0 < n
      → let given = Manager.allocate B V a n in
        All (Clear V.block_size (given.1, n)) hs
        → All (IsAllotted given.0) hs
        → AreAllotted given.0 ((given.1, n) ∷ hs)
  unfolding Manager.allocate
  allotted_first a hs n v few some_bytes apart kept =
      let handed = allocate_lem B V.block_size a.block_bitmap n v.valid v.header few in
      record {
        valid = handed.valid;
        header = omega (arith, handed.inside, handed.header);
        allotted = (record { some_bytes = some_bytes; used = handed.written.written }, kept);
        clear = (apart, v.clear);
      }

  -- From a valid bitmap with its header block and of fewer than SIZE_MAX blocks, with allocations of
  -- any sizes from one byte on that have their blocks in use and share none: a new allocation of any
  -- such size has its blocks in use as well and shares none with any of them, which keep theirs, and
  -- what is written to it, within its size, changes nothing that any of them reads within its own.
  pub allocate-AreAllotted :
      (a : BestFitAllocation B V) (hs : List Allotment) (n : ℕ) (bytes : List ℕ) (offset : ℕ)
      → AreAllotted a hs
      → length (B.view a.block_bitmap) < size_max
      → 0 < n
      → offset + length bytes ≤ n
      → let given = Manager.allocate B V a n in
        AreAllotted given.0 ((given.1, n) ∷ hs)
        × All (ReadsSame a (Manager.write B V given.0 given.1 bytes offset)) hs
  allocate-AreAllotted a hs n bytes offset v few some_bytes fits =
      let parts = given-Clear a n some_bytes v.valid v.header few hs v.allotted in
      (
        allotted_first a hs n v few some_bytes parts.0 parts.1,
        new_same a n some_bytes v.valid v.header few bytes offset fits hs parts.0,
      )
