-- ===== src/Flouds/Grow.antt =====
-- The tree shape is kept when a node is added (src/flouds/flouds.cpp, Flouds::insert).
use succinct_filesystem.Base.{
  ℕ, zero, suc, ◌+◌, ◌≤◌, ◌<◌, ◌≡◌, ◌≢◌, refl, ap, ◌∙◌, Bool, true, false, List, some, arith,
}
use native.Mathlib.Decide.{dec_lt, ℕ_discrete}
use succinct_filesystem.Base.Seq.{
  length, get_elem?, insert_at, set, length-insert_at, length-set, get_elem?-lt,
  get_elem?-insert_at_below,
}
use succinct_filesystem.BitVector.{ones}
use succinct_filesystem.BitVector.Count.{rank, one_if, rank_mono, rank-step}
use succinct_filesystem.BitVector.Count.Edits.{
  rank-insert_below, rank-insert_above, rank-set_below, rank-set_above,
}
use succinct_filesystem.Flouds.Shape.{
  full, block_of, folder_index, IsTree, block_end, block_end_lem, block_exists, block_start,
}

-- A new last node of the block that ends at `e`, or a new block at `e`, keeps the shape.
module _ {bits : List Bool} {types types' : List ℕ} (t : IsTree bits types) (e k s : ℕ)
    (new_block : Bool) (inside : e ≤ length bits) (after_root : 0 < e) (not_full : s ≢ 1)
    (same : length types' ≡ length types) (two : 2 ≤ k)
    (blocks_before : rank ones e bits + one_if new_block ≡ k)
    (early : (i : ℕ) → i ≤ e → rank full i types ≤ rank full i types')
    (late : (i : ℕ) → e ≤ i → rank full i types' ≡ rank full i types + one_if new_block)
    (parent_before : k ≤ rank full e types' + 1) where
  not-full : one_if (full s) ≡ 0
  not-full = ground arith

  fits : e ≤ length types'
  fits = omega (arith, same, t.same_length)

  block_before : (i : ℕ) → i < e → block_of (insert_at bits e new_block) i ≡ block_of bits i
  block_before i h = rank-insert_below ones (suc i) e bits new_block h inside

  block_after :
      (i : ℕ)
      → e ≤ i
      → block_of (insert_at bits e new_block) i ≡ rank ones i bits + one_if new_block
  block_after i h = rank-insert_above ones i e bits new_block h inside

  folders_before : (i : ℕ) → i ≤ e → rank full i (insert_at types' e s) ≡ rank full i types'
  folders_before i h = rank-insert_below full i e types' s h fits

  folders_after :
      (i : ℕ)
      → e ≤ i
      → rank full (suc i) (insert_at types' e s) ≡ rank full i types + one_if new_block
  folders_after i h = omega (arith, rank-insert_above full i e types' s h fits, late i h, not-full)

  below_root_after :
      (i : ℕ) → 0 < i → i < suc (length bits) → 2 ≤ block_of (insert_at bits e new_block) i
  below_root_after zero pos lt = absurd (omega arith)
  below_root_after (suc j) pos lt = elim (dec_lt (suc j) e) [
    | yes before ↦
        omega (arith, block_before (suc j) before, t.below_root (suc j) pos (omega arith))
    | no after ↦ elim (ℕ_discrete (suc j) e) [
      | yes new ↦ omega (
        arith,
        block_after (suc j) (omega arith),
        blocks_before,
        ap (λ (n : ℕ). rank ones n bits) new,
      )
      | no past ↦
          omega
            (arith, block_after (suc j) (omega arith), t.below_root j (omega arith) (omega arith))
    ]
  ]

  parents_first_after :
      (i : ℕ)
      → 0 < i
      → i < suc (length bits)
      → block_of (insert_at bits e new_block) i ≤ rank full i (insert_at types' e s) + 1
  parents_first_after zero pos lt = absurd (omega arith)
  parents_first_after (suc j) pos lt = elim (dec_lt (suc j) e) [
    | yes before ↦ omega (
      arith,
      block_before (suc j) before,
      t.parents_first (suc j) pos (omega arith),
      folders_before (suc j) (omega arith),
      early (suc j) (omega arith),
    )
    | no after ↦ elim (ℕ_discrete (suc j) e) [
      | yes new ↦ omega (
        arith,
        block_after (suc j) (omega arith),
        blocks_before,
        parent_before,
        folders_before (suc j) (omega arith),
        ap (λ (n : ℕ). rank ones n bits) new,
        ap (λ (n : ℕ). rank full n types') new,
      )
      | no past ↦ omega (
        arith,
        block_after (suc j) (omega arith),
        folders_after j (omega arith),
        t.parents_first j (omega arith) (omega arith),
      )
    ]
  ]

  pub insert-IsTree : IsTree (insert_at bits e new_block) (insert_at types' e s)
  insert-IsTree =
      let grown : length (insert_at bits e new_block) ≡ suc (length bits) =
        omega (arith, length-insert_at bits e new_block) in
      record {
        same_length = omega (arith, grown, length-insert_at types' e s, same, t.same_length);
        nonempty = omega (arith, grown);
        root_bit = get_elem?-insert_at_below bits e 0 new_block inside after_root ∙ t.root_bit;
        blocks = rw grown (
            omega (
              arith,
              block_after (length bits) inside,
              folders_after (length bits) inside,
              t.blocks,
            ));
        below_root = λ i pos lt. below_root_after i pos (omega (arith, grown));
        parents_first = λ i pos lt. parents_first_after i pos (omega (arith, grown));
      }

module _ {bits : List Bool} {types : List ℕ} (t : IsTree bits types) where
  -- Adding a node to a folder `p` that has children.
  pub grow_full-IsTree :
      (p s : ℕ)
      → get_elem? types p ≡ some 1
      → s ≢ 1
      → let e = block_end bits (suc (folder_index types p)) in
        IsTree (insert_at bits e false) (insert_at types e s)
  grow_full-IsTree p s folder leaf =
      let k = suc (folder_index types p) in
      let (start, found, after, inside, before, ends) = block_start t p folder in
      let end = block_end_lem bits k (block_exists t p folder) in
      insert-IsTree t (block_end bits k) k s false end.0 (omega (arith, after, ends)) leaf refl
        (omega (arith, rank-step full p types 1 folder)) (omega (arith, end.1)) (λ i h. omega arith)
        (λ i h. omega arith)
        (omega
          (arith, rank_mono full (suc p) (block_end bits k) types (omega (arith, after, ends))))

  -- The block after that of the full folders up to `p` starts behind `p`.
  parent_before_end :
      (p e k : ℕ)
      → k ≡ rank full p types + 1
      → p < length bits
      → rank ones e bits ≡ k
      → (e < length bits → rank ones (suc e) bits ≡ suc k)
      → p < e
  parent_before_end p e k index inside at next = elim (dec_lt p e) [
    | yes after ↦ after
    | no before ↦ absurd (behind p e index inside (omega arith) at (next (omega arith)))
  ]
    where
      behind :
          (p e : ℕ)
          → k ≡ rank full p types + 1
          → p < length bits
          → e ≤ p
          → rank ones e bits ≡ k
          → rank ones (suc e) bits ≡ suc k
          → ⊥
      behind zero zero index inside le at next = omega (arith, at)
      behind zero (suc e) index inside le at next = omega arith
      behind (suc p) e index inside le at next = omega (
        arith,
        t.parents_first (suc p) (omega arith) inside,
        rank_mono ones (suc e) (suc (suc p)) bits (omega arith),
      )

  -- Where the block of a folder `p` that had no children belongs, once its type is 1.
  pub first_block :
      (p old : ℕ)
      → get_elem? types p ≡ some old
      → old ≢ 1
      → let k = folder_index (set types p 1) p in
        (p < block_end bits k)
        × (block_end bits k ≤ length bits)
        × (rank ones (block_end bits k) bits ≡ k)
        × (k ≡ rank full p types + 1)
  first_block p old folder empty =
      let k = folder_index (set types p 1) p in
      let none_before : one_if (full old) ≡ 0 = ground arith in
      let index : k ≡ rank full p types + 1 = omega (
        arith,
        rank-set_above full (suc p) p types 1 old (omega arith) folder,
        none_before,
        rank-step full p types old folder,
      ) in
      let inside : p < length bits = omega (arith, get_elem?-lt types p folder, t.same_length) in
      let end =
        block_end_lem bits k
          (omega (arith, t.blocks, rank_mono full p (length bits) types (omega (arith, inside)))) in
      (parent_before_end p (block_end bits k) k index inside end.1 end.2, end.0, end.1, index)

  -- Adding the first node to a folder `p` that had none; its type becomes 1.
  pub grow_empty-IsTree :
      (p s old : ℕ)
      → get_elem? types p ≡ some old
      → old ≢ 1
      → s ≢ 1
      → let e = block_end bits (folder_index (set types p 1) p) in
        IsTree (insert_at bits e true) (insert_at (set types p 1) e s)
  grow_empty-IsTree p s old folder empty leaf =
      let k = folder_index (set types p 1) p in
      let none_before : one_if (full old) ≡ 0 = ground arith in
      let (after, inside, blocks, index) = first_block p old folder empty in
      insert-IsTree t (block_end bits k) (suc k) s true inside (omega (arith, after)) leaf
        (length-set types p 1) (omega (arith, index)) (omega (arith, blocks))
        (λ i h. elim (dec_lt p i) [
          | yes later ↦ omega (arith, rank-set_above full i p types 1 old later folder, none_before)
          | no sooner ↦ omega (arith, rank-set_below full i p types 1 (omega arith))
        ])
        (λ i h.
          omega
            (arith, none_before, rank-set_above full i p types 1 old (omega (arith, after)) folder))
        (omega
          (arith, rank_mono full (suc p) (block_end bits k) (set types p 1) (omega (arith, after))))
