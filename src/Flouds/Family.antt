-- ===== src/Flouds/Family.antt =====
-- Parents and children are inverse to one another, and the initial state is a tree
-- (src/flouds/flouds.cpp: parent, children_count, child, create_flouds).
use succinct_filesystem.Base.{
  ℕ, suc, ◌+◌, ◌-◌, ◌≤◌, ◌<◌, ◌≡◌, refl, ap, ◌∙◌, Bool, true, List, [], ◌∷◌, some, arith,
}
use native.Mathlib.Decide.{dec_lt}
use succinct_filesystem.Base.Seq.{length, get_elem?, insert_at, get_elem?-lt}
use succinct_filesystem.BitVector.{ones}
use succinct_filesystem.BitVector.Count.{select, rank_mono, rank-step, rank-select, select-rank}
use succinct_filesystem.BitVector.{BitVector}
use succinct_filesystem.NameSequence.{NameSequence, Name}
use succinct_filesystem.WaveletTree.Select.{select_lem}
use succinct_filesystem.WaveletTree.Create.{one_bit, create_one-Holds}
use succinct_filesystem.Flouds
use succinct_filesystem.Flouds.{Flouds}
use succinct_filesystem.Flouds.Shape.{
  full, block_of, folder_index, block_end, block_end_lem, block_exists,
}
use succinct_filesystem.Flouds.Refine.{Holds, rank1_at, block_lem, parent_lem}
use succinct_filesystem.Flouds.{root_name}

module _ (B : BitVector) (N : NameSequence) {f : Flouds B N} (bits : List Bool) (kinds : List ℕ)
    (labels : List Name) (h : Holds B N f bits kinds labels) where
  -- A position that stands in the block of `p` has `p` for its parent.
  pub parent_of_block :
      (p j : ℕ)
      → get_elem? kinds p ≡ some 1
      → j < length bits
      → block_of bits j ≡ suc (folder_index kinds p)
      → Flouds.parent B N f j ≡ some p
  unfolding Flouds.parent
  parent_of_block p j folder inside block =
      let k = folder_index kinds p in
      let one_less : suc k - 1 ≡ k = omega arith in
      let total = rank_mono full (suc p) (length kinds) kinds (get_elem?-lt kinds p folder) in
      let here = rank-step full p kinds 1 folder in
      rw (rank1_at B N bits kinds labels h j inside, block, one_less)
        (select_lem B kinds h.types_hold 1 k (omega arith) (omega (arith, here)) total
          ∙ select-rank full kinds p 1 folder refl)

  -- A position between the start and the end of the block of `p` stands in it.
  parent_in_block :
      (p start j : ℕ)
      → get_elem? kinds p ≡ some 1
      → select ones (suc (folder_index kinds p)) bits ≡ some start
      → start ≤ j
      → j < block_end bits (suc (folder_index kinds p))
      → Flouds.parent B N f j ≡ some p
  parent_in_block p start j folder found after before =
      let k = folder_index kinds p in
      let end = block_end_lem bits (suc k) (block_exists h.tree p folder) in
      let at = rank-select ones (suc k) bits start (omega arith) found in
      parent_of_block p j folder (omega (arith, end.0)) (
        omega (
          arith,
          at.2,
          end.1,
          rank_mono ones (suc start) (suc j) bits (omega arith),
          rank_mono ones (suc j) (block_end bits (suc k)) bits (omega arith),
        ))

  -- On a state that holds a tree, a folder `p` whose type is 1 has a positive number of children,
  -- and each of them, as child gives it, has `p` for its parent.
  pub parent-child :
      (p : ℕ)
      → get_elem? kinds p ≡ some 1
      → (count start : ℕ) × (Flouds.children_count B N f p ≡ some count)
        × (0 < count)
        × ((c : ℕ)
            → c < count
            → (Flouds.child B N f p c ≡ some (start + c))
              × (Flouds.parent B N f (start + c) ≡ some p))
  parent-child p folder =
      let (start, found, ends, counted, kids) = block_lem B N bits kinds labels h p folder in
      (
        block_end bits (suc (folder_index kinds p)) - start,
        start,
        counted,
        omega (arith, ends),
        λ c lt. (
          kids c,
          parent_in_block p start (start + c) folder found (omega arith) (omega (arith, lt, ends)),
        ),
      )

  -- On a state that holds a tree, a node `i` other than the root is one of the children of its
  -- parent, which is a folder before it.
  pub child-parent :
      (i : ℕ)
      → 0 < i
      → i < length bits
      → (q c count : ℕ) × (Flouds.parent B N f i ≡ some q)
        × (q < i)
        × (Flouds.children_count B N f q ≡ some count)
        × (c < count)
        × (Flouds.child B N f q c ≡ some i)
  child-parent i pos lt =
      let (q, up, before, folder, index) = parent_lem B N bits kinds labels h i pos lt in
      let (start, found, ends, counted, kids) = block_lem B N bits kinds labels h q folder in
      let e = block_end bits (suc (folder_index kinds q)) in
      let k = suc (folder_index kinds q) in
      let end = block_end_lem bits k (block_exists h.tree q folder) in
      let at = rank-select ones k bits start (omega arith) found in
      let after : start ≤ i = elim (dec_lt i start) [
        | yes sooner ↦
            absurd (omega (arith, at.1, index, rank_mono ones (suc i) start bits (omega arith)))
        | no later ↦ omega arith
      ] in
      let inside : i < e = elim (dec_lt i e) [
        | yes sooner ↦ sooner
        | no later ↦ absurd (
            omega (
              arith,
              index,
              end.0,
              end.2 (omega arith),
              rank_mono ones (suc e) (suc i) bits (omega arith),
            ))
      ] in
      (
        q,
        i - start,
        e - start,
        up,
        before,
        counted,
        omega (arith, after, inside),
        kids (i - start) ∙ ap (λ (j : ℕ). some j) {y = i} (omega (arith, after)),
      )

-- The new FLOUDS holds the tree of a root that is an empty folder named "root".
pub create_flouds-Holds :
    (B : BitVector) (N : NameSequence)
    → Holds B N (Flouds.create_flouds B N) (true ∷ []) (2 ∷ []) (root_name ∷ [])
unfolding Flouds.create_flouds
create_flouds-Holds B N =
    let empty : 0 ≤ length (N.view N.create_name_sequence) = omega arith in
    record {
      structure_valid = (one_bit B).0;
      structure_view = (one_bit B).1;
      types_hold = create_one-Holds B;
      names_valid = N.insert-IsValid N.create_name_sequence 0 root_name N.create-IsValid empty;
      names_view =
          N.view-insert N.create_name_sequence 0 root_name N.create-IsValid empty
          ∙ ap (λ xs. insert_at xs 0 root_name) N.view-create;
      labelled = refl;
      tree = record {
        same_length = refl;
        nonempty = omega arith;
        root_bit = refl;
        blocks = refl;
        below_root = λ i pos lt. absurd (omega arith);
        parents_first = λ i pos lt. absurd (omega arith);
      };
    }
