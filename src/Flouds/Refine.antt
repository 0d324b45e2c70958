-- ===== src/Flouds/Refine.antt =====
-- What the FLOUDS operations compute on a state that holds a tree (src/flouds/flouds.cpp).
use succinct_filesystem.Base.{ℕ, suc, ◌+◌, ◌-◌, ◌≤◌, ◌<◌, ◌≡◌, ap, ◌∙◌, Bool, List, some, arith}
use native.Mathlib.Decide.{dec_lt}
use succinct_filesystem.Base.Seq.{length, get_elem?, get_or, get_elem?-eq-get_or, get_elem?-lt}
use succinct_filesystem.BitVector.{ones}
use succinct_filesystem.BitVector.Count.{
  rank, select, rank_mono, rank-next, select-next, select-none, select-some,
}
use succinct_filesystem.BitVector.{BitVector}
use succinct_filesystem.NameSequence.{NameSequence, Name}
use succinct_filesystem.WaveletTree
use succinct_filesystem.WaveletTree.Refine
use succinct_filesystem.WaveletTree.Refine.{access_lem, rank_lem}
use succinct_filesystem.WaveletTree.Select.{select_lem}
use succinct_filesystem.Flouds
use succinct_filesystem.Flouds.{Flouds}
use succinct_filesystem.Flouds.Shape.{
  full, block_of, folder_index, IsTree, block_end, block_end-found, block_end-last, block_exists,
  block_start, parent_exists,
}

-- The three parts of the state hold the three sequences, which describe a tree.
pub record Holds (B : BitVector) (N : NameSequence) (f : Flouds B N) (bits : List Bool)
    (kinds : List ℕ) (labels : List Name) : Type 0 where
  pub structure_valid : B.IsValid f.structure
  pub structure_view : B.view f.structure ≡ bits
  pub types_hold : Refine.Holds B f.types kinds
  pub names_valid : N.IsValid f.names
  pub names_view : N.view f.names ≡ labels
  pub labelled : length labels ≡ length bits
  pub tree : IsTree bits kinds

module _ (B : BitVector) (N : NameSequence) {f : Flouds B N} (bits : List Bool) (kinds : List ℕ)
    (labels : List Name) (h : Holds B N f bits kinds labels) where
  pub rank1_at : (i : ℕ) → i < length bits → B.rank1 f.structure i ≡ block_of bits i
  rank1_at i lt =
      B.rank1_lem f.structure i h.structure_valid (rw h.structure_view lt)
      ∙ ap (rank ones (i + 1)) h.structure_view
      ∙ rank-next ones i bits

  pub select1_at : (n : ℕ) → 0 < n → B.select1 f.structure n ≡ select ones n bits
  select1_at n pos =
      B.select1_lem f.structure n h.structure_valid pos ∙ ap (select ones n) h.structure_view

  pub size_at : B.size f.structure ≡ length bits
  size_at = B.size_lem f.structure h.structure_valid ∙ ap length h.structure_view

  pub rank_at :
      (i : ℕ) → i < length bits → WaveletTree.rank B f.types 1 i ≡ some (folder_index kinds i)
  rank_at i lt =
      rw (rank_lem B kinds h.types_hold 1 i (omega arith))
        (ground (arith, h.tree.same_length, rank-next full i kinds))

  pub access_at : (i : ℕ) → i < length bits → WaveletTree.access B f.types i ≡ get_or kinds i 0
  access_at i lt = access_lem B kinds h.types_hold i (omega (arith, h.tree.same_length))

  pub kind_at : (i s : ℕ) → get_elem? kinds i ≡ some s → get_or kinds i 0 ≡ s
  kind_at i s e = ground (arith, get_elem?-eq-get_or kinds i 0 (get_elem?-lt kinds i e))

  -- On a state that holds a tree, every node other than the root has a parent: a node before it,
  -- and the folder with children whose block it stands in.
  pub parent_lem :
      (i : ℕ)
      → 0 < i
      → i < length bits
      → (q : ℕ) × (Flouds.parent B N f i ≡ some q)
        × (q < i)
        × (get_elem? kinds q ≡ some 1)
        × (folder_index kinds q + 1 ≡ block_of bits i)
  unfolding Flouds.parent
  parent_lem i pos lt =
      let (q, found, before, folder, index) = parent_exists h.tree i pos lt in
      (q, rw (rank1_at i lt) (at q found (h.tree.below_root i pos lt)), before, folder, index)
    where
      at :
          (q : ℕ)
          → select full (block_of bits i - 1) kinds ≡ some q
          → 2 ≤ block_of bits i
          → WaveletTree.select B f.types 1 (block_of bits i - 1) ≡ some q
      at q found two =
          select_lem B kinds h.types_hold 1 (block_of bits i - 1) (omega arith) (omega (arith, two))
            (omega (
              arith,
              h.tree.parents_first i pos lt,
              h.tree.same_length,
              rank_mono full i (length kinds) kinds (omega (arith, h.tree.same_length)),
            ))
          ∙ found

  total_at : B.rank1 f.structure (B.size f.structure - 1) ≡ rank ones (length bits) bits
  total_at =
      ap (λ (n : ℕ). B.rank1 f.structure (n - 1)) size_at
      ∙ rank1_at (length bits - 1) (omega (arith, h.tree.nonempty))
      ∙ ap (λ (n : ℕ). rank ones n bits) {x = suc (length bits - 1)} {y = length bits}
          (omega (arith, h.tree.nonempty))

  count_block_lem :
      (k start : ℕ)
      → 0 < k
      → k ≤ rank ones (length bits) bits
      → select ones k bits ≡ some start
      → Flouds.count_block B N f k ≡ some (block_end bits k - start)
  unfolding Flouds.count_block
  count_block_lem k start pos enough found = elim (dec_lt k (rank ones (length bits) bits)) [
    | yes more ↦
        let (e, next) = select-some ones (suc k) bits (omega arith) more in
        ground (
          arith,
          select1_at k pos,
          total_at,
          select1_at (k + 1) (omega arith),
          select-next ones k bits,
          block_end-found bits k e next,
        )
    | no last ↦ ground (
      arith,
      select1_at k pos,
      total_at,
      size_at,
      block_end-last bits k (select-none ones (suc k) bits (omega arith) (omega arith)),
    )
  ]

  -- Where the children of a folder that has some stand, and how many there are.
  pub block_lem :
      (p : ℕ)
      → get_elem? kinds p ≡ some 1
      → (start : ℕ) × (select ones (suc (folder_index kinds p)) bits ≡ some start)
        × (start < block_end bits (suc (folder_index kinds p)))
        × (Flouds.children_count B N f p
            ≡ some (block_end bits (suc (folder_index kinds p)) - start))
        × ((c : ℕ) → Flouds.child B N f p c ≡ some (start + c))
  unfolding Flouds.children_count Flouds.child Flouds.is_empty_folder
  block_lem p folder =
      let k = folder_index kinds p in
      let inside : p < length bits =
        omega (arith, get_elem?-lt kinds p folder, h.tree.same_length) in
      let (start, found, after, before, behind, ends) = block_start h.tree p folder in
      let found' = select-next ones k bits ∙ found in
      let counted =
        count_block_lem (k + 1) start (omega arith) (omega (arith, block_exists h.tree p folder))
          found' in
      (
        start,
        found,
        ends,
        ground (
          arith,
          access_at p inside,
          kind_at p 1 folder,
          rank_at p inside,
          counted,
          ap (λ (n : ℕ). block_end bits n) {x = k + 1} {y = suc k} (omega arith),
        ),
        λ c. ground (arith, rank_at p inside, select1_at (k + 1) (omega arith), found'),
      )
