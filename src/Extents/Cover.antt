-- ===== src/Extents/Cover.antt =====
-- The extents of a handle cover the blocks that its size asks for
-- (src/fsm/allocation/extent_allocation.cpp).
use succinct_filesystem.Base.{
  ℕ, zero, suc, ◌+◌, ◌-◌, ◌≤◌, ◌<◌, ◌≡◌, refl, ap, true, false, List, [], ◌∷◌, ◌++◌, some, arith,
  ltb, leb, ==_iff,
}
use native.Mathlib.Decide.{dec_lt, dec_le}
use succinct_filesystem.BitVector.{BitVector}
use succinct_filesystem.BestFit
use succinct_filesystem.BestFit.{size_max, blocks_for}
use succinct_filesystem.Extents
use succinct_filesystem.Extents.{
  Extent, ExtentSearch, ExtentAllocation, find_extents, erase_extents, store_extents,
}

abbrev pub total : List Extent → ℕ
total [] = 0
total (extent ∷ extents) = extent.num_blocks + total extents

total-append : (xs ys : List Extent) → total (xs ++ ys) ≡ total xs + total ys
total-append [] ys = omega arith
total-append (x ∷ xs) ys = omega (arith, total-append xs ys)

-- The handle has extents, of at least so many blocks together.
abbrev pub Covers : List (ℕ × List Extent) → ℕ → ℕ → Type 0
Covers map handle blocks =
    (extents : List Extent) × (find_extents map handle ≡ some extents) × (blocks ≤ total extents)

find-store :
    (map : List (ℕ × List Extent)) (handle : ℕ) (extents : List Extent)
    → find_extents (store_extents map handle extents) handle ≡ some extents
unfolding find_extents store_extents
find-store map handle extents = rw ((==_iff handle handle).1 refl) refl

ltb-yes : (a b : ℕ) → a < b → ltb a b ≡ true
ltb-yes a b h = ground arith

ltb-no : (a b : ℕ) → ¬ (a < b) → ltb a b ≡ false
ltb-no a b h = ground arith

leb-yes : (a b : ℕ) → a ≤ b → leb a b ≡ true
leb-yes a b h = ground arith

leb-no : (a b : ℕ) → ¬ (a ≤ b) → leb a b ≡ false
leb-no a b h = ground arith

cons_of :
    (extents : List Extent)
    → 0 < total extents
    → (first : Extent) × (others : List Extent) × (extents ≡ first ∷ others)
cons_of [] h = absurd (omega (arith, h))
cons_of (first ∷ others) h = (first, others, refl)

module _ (B : BitVector) where
  search_block-total :
      (required i : ℕ) (s : ExtentSearch B)
      → total s.extents ≡ s.blocks_allocated
      → total (Extents.search_block B required i s).extents
        ≡ (Extents.search_block B required i s).blocks_allocated
  unfolding Extents.search_block
  search_block-total required i s h = ground (
    arith,
    total-append s.extents
        (record { start_block = s.current_start; num_blocks = s.current_size } ∷ []),
  )

  search-total :
      (rounds required i : ℕ) (s : ExtentSearch B)
      → total s.extents ≡ s.blocks_allocated
      → total (Extents.search B rounds required i s).extents
        ≡ (Extents.search B rounds required i s).blocks_allocated
  unfolding Extents.search
  search-total zero required i s h = h
  search-total (suc rounds) required i s h = elim (dec_lt s.blocks_allocated required) [
    | yes more ↦ rw (ltb-yes s.blocks_allocated required more) (
        search-total rounds required (i + 1) (Extents.search_block B required i s)
          (search_block-total required i s h))
    | no enough ↦ rw (ltb-no s.blocks_allocated required enough) h
  ]

  append_extent-total :
      (required num_blocks : ℕ) (s : ExtentSearch B)
      → total s.extents ≡ s.blocks_allocated
      → required ≤ total (Extents.append_extent B required num_blocks s).1
  unfolding Extents.append_extent
  append_extent-total required num_blocks s h = ground (
    arith,
    total-append s.extents (
        record {
          start_block = num_blocks - s.current_size;
          num_blocks = s.current_size + (required - s.blocks_allocated);
        }
        ∷ []),
    total-append s.extents
        (record { start_block = num_blocks; num_blocks = required - s.blocks_allocated } ∷ []),
  )

  -- The extents that allocate_extents hands out have at least the blocks that are required.
  pub allocate_extents_lem :
      (block_bitmap : B.Carrier) (required : ℕ)
      → required ≤ total (Extents.allocate_extents B block_bitmap required).1
  unfolding Extents.allocate_extents
  allocate_extents_lem block_bitmap required =
      let s = Extents.search B (B.size block_bitmap - 1) required 1 (record {
        block_bitmap = block_bitmap;
        extents = [];
        blocks_allocated = 0;
        current_start = size_max;
        current_size = 0;
      }) in
      let sum : total s.extents ≡ s.blocks_allocated =
        search-total (B.size block_bitmap - 1) required 1 _ refl in
      elim (dec_lt s.blocks_allocated required) [
        | yes more ↦
            rw (ltb-yes s.blocks_allocated required more)
              (append_extent-total required (B.size block_bitmap) s sum)
        | no enough ↦ rw (ltb-no s.blocks_allocated required enough) (omega (arith, sum))
      ]

  -- A shrinking resize keeps exactly the blocks that it is to keep, if there are so many.
  pub shrink_extents_lem :
      (extents : List Extent) (keep : ℕ) (block_bitmap : B.Carrier)
      → keep ≤ total extents
      → total (Extents.shrink_extents B extents keep block_bitmap).1 ≡ keep
  unfolding Extents.shrink_extents
  shrink_extents_lem [] keep block_bitmap h = omega arith
  shrink_extents_lem (extent ∷ extents) keep block_bitmap h = ground (
    arith,
    shrink_extents_lem extents (keep - extent.num_blocks) block_bitmap,
    shrink_extents_lem extents 0
        (BestFit.set_blocks B (extent.num_blocks - keep) block_bitmap (extent.start_block + keep)
          false)
        (omega arith),
    shrink_extents_lem extents keep
        (BestFit.set_blocks B extent.num_blocks block_bitmap extent.start_block false),
  )

  -- An allocation of at least one block succeeds, and the handle that it returns has extents of at
  -- least the blocks that the size asks for.
  pub allocate-Covers :
      (block_size : ℕ) (a : ExtentAllocation B) (size : ℕ)
      → 0 < blocks_for block_size size
      → (a' : ExtentAllocation B) × (handle : ℕ) × (Extents.allocate B block_size a size
          ≡ some (a', handle))
        × Covers a'.extent_map handle (blocks_for block_size size)
  unfolding Extents.allocate
  allocate-Covers block_size a size pos =
      let given = Extents.allocate_extents B a.block_bitmap (blocks_for block_size size) in
      let enough = allocate_extents_lem a.block_bitmap (blocks_for block_size size) in
      let (first, others, e) = cons_of given.1 (omega (arith, enough, pos)) in
      rw (e, Extents.allocate)
        (
          _,
          _,
          refl,
          (
            first ∷ others,
            find-store a.extent_map first.start_block (first ∷ others),
            omega (arith, ap total e, enough),
          ),
        )

  -- A resize of a handle whose extents cover its old size succeeds, keeps the handle, and leaves it
  -- with extents that cover the new size.
  pub resize-Covers :
      (block_size : ℕ) (a : ExtentAllocation B) (handle old_size new_size : ℕ)
      → Covers a.extent_map handle (blocks_for block_size old_size)
      → (a' : ExtentAllocation B) × (Extents.resize B block_size a handle old_size new_size
          ≡ some (a', handle))
        × Covers a'.extent_map handle (blocks_for block_size new_size)
  unfolding Extents.resize
  resize-Covers block_size a handle old_size new_size (extents, found, enough) =
      let old = blocks_for block_size old_size in
      let new = blocks_for block_size new_size in
      let kept = Extents.shrink_extents B extents new a.block_bitmap in
      let given = Extents.allocate_extents B a.block_bitmap (new - old) in
      elim (dec_le new old) [
        | yes less ↦
            rw (leb-yes new old less, found)
              (
                _,
                refl,
                (
                  kept.1,
                  find-store a.extent_map handle kept.1,
                  omega (
                    arith,
                    shrink_extents_lem extents new a.block_bitmap (omega (arith, enough)),
                  ),
                ),
              )
        | no more ↦
            rw (leb-no new old more, found)
              (
                _,
                refl,
                (
                  extents ++ given.1,
                  find-store a.extent_map handle (extents ++ given.1),
                  omega (
                    arith,
                    total-append extents given.1,
                    enough,
                    allocate_extents_lem a.block_bitmap (new - old),
                  ),
                ),
              )
      ]
