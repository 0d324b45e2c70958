-- ===== src/Flouds/Insert.antt =====
-- Adding a node keeps the tree, and where the node is put (src/flouds/flouds.cpp, Flouds::insert).
use succinct_filesystem.Base.{
  ℕ, suc, ◌+◌, ◌-◌, ◌≤◌, ◌<◌, ◌≡◌, refl, ap, ◌∙◌, Bool, true, false, List, some, arith,
  if◌then◌else◌, Option-cases, inl, inr,
}
use succinct_filesystem.Base.Seq.{
  length, get_elem?, insert_at, set, length-insert_at, length-set, get_elem?-lt,
}
use succinct_filesystem.BitVector.{ones}
use succinct_filesystem.BitVector.Count.{select, rank-next, select-next}
use succinct_filesystem.BitVector.{BitVector}
use succinct_filesystem.NameSequence.{NameSequence, Name}
use succinct_filesystem.WaveletTree
use succinct_filesystem.WaveletTree.{TwoBitWaveletTree}
use succinct_filesystem.WaveletTree.Refine
use succinct_filesystem.WaveletTree.Refine.{access_lem, rank_lem, ltb-true}
use succinct_filesystem.WaveletTree.Update.{set_symbol-Holds}
use succinct_filesystem.WaveletTree.Update
use succinct_filesystem.Flouds
use succinct_filesystem.Flouds.{Flouds}
use succinct_filesystem.Flouds.Shape.{
  full, folder_index, IsTree, block_end, block_end-found, block_end-last, block_end-le,
  block_end_lem, block_exists,
}
use succinct_filesystem.Flouds.Grow.{grow_full-IsTree, grow_empty-IsTree}
use succinct_filesystem.Flouds.Refine.{
  Holds, select1_at, size_at, rank_at, access_at, kind_at, block_lem,
}

-- The type of a new node.
abbrev pub new_kind : Bool → ℕ
new_kind is_folder = if is_folder then 2 else 0

rejoin : (start e : ℕ) → start < e → start + (e - start) ≡ e
rejoin start e h = omega arith

module _ (B : BitVector) (N : NameSequence) {f : Flouds B N} (bits : List Bool) (kinds : List ℕ)
    (labels : List Name) (h : Holds B N f bits kinds labels) where
  -- The state after the three insertions at `e`.
  insert_parts :
      (T : TwoBitWaveletTree B) (kinds' : List ℕ) (e s : ℕ) (new_block : Bool) (name : Name)
      → Refine.Holds B T kinds'
      → length kinds' ≡ length kinds
      → e ≤ length bits
      → s < 4
      → IsTree (insert_at bits e new_block) (insert_at kinds' e s)
      → Holds B N
          (record {
            structure = B.insert f.structure e new_block;
            types = WaveletTree.insert B T e s;
            names = N.insert f.names e name;
          })
          (insert_at bits e new_block)
          (insert_at kinds' e s)
          (insert_at labels e name)
  insert_parts T kinds' e s new_block name holds same le four tree =
      let at : e ≤ length (B.view f.structure) = rw h.structure_view le in
      let named : e ≤ length (N.view f.names) = rw h.names_view (omega (arith, h.labelled)) in
      record {
        structure_valid = B.insert-IsValid f.structure e new_block h.structure_valid at;
        structure_view =
            B.view-insert f.structure e new_block h.structure_valid at
            ∙ ap (λ xs. insert_at xs e new_block) h.structure_view;
        types_hold =
            Update.insert-Holds B kinds' holds e s (omega (arith, same, h.tree.same_length)) four;
        names_valid = N.insert-IsValid f.names e name h.names_valid named;
        names_view =
            N.view-insert f.names e name h.names_valid named
            ∙ ap (λ xs. insert_at xs e name) h.names_view;
        labelled =
            omega (
              arith,
              length-insert_at labels e name,
              length-insert_at bits e new_block,
              h.labelled,
            );
        tree = tree;
      }

  position_start :
      (k start c : ℕ)
      → select ones (suc k) bits ≡ some start
      → Flouds.insert_position B N f.structure (k + 1) c ≡ start + c
  unfolding Flouds.insert_position
  position_start k start c found = ground (
    arith,
    select1_at B N bits kinds labels h (k + 1) (omega arith),
    select-next ones k bits,
    found,
  )

  position_end : (k : ℕ) → Flouds.insert_position B N f.structure (k + 1) 0 ≡ block_end bits k
  unfolding Flouds.insert_position
  position_end k = elim (Option-cases (select ones (suc k) bits)) [
    | inl last ↦ ground (
      arith,
      select1_at B N bits kinds labels h (k + 1) (omega arith),
      select-next ones k bits,
      block_end-last bits k last,
      size_at B N bits kinds labels h,
    )
    | inr (e, found) ↦ ground (
      arith,
      select1_at B N bits kinds labels h (k + 1) (omega arith),
      select-next ones k bits,
      block_end-found bits k e found,
    )
  ]

  -- On a state that holds a tree, inserting a node under a folder `p` that has children puts it
  -- behind the last of them, with a clear bit, and the state holds the tree so extended.
  pub insert_full :
      (p : ℕ) (name : Name) (is_folder : Bool)
      → get_elem? kinds p ≡ some 1
      → let e = block_end bits (suc (folder_index kinds p)) in
        (f' : Flouds B N) × (Flouds.insert B N f p name is_folder ≡ some (f', e))
        × Holds B N f'
            (insert_at bits e false)
            (insert_at kinds e (new_kind is_folder))
            (insert_at labels e name)
  unfolding Flouds.insert Flouds.is_empty_folder
  insert_full p name is_folder folder =
      let k = folder_index kinds p in
      let e = block_end bits (suc k) in
      let inside : p < length bits =
        omega (arith, get_elem?-lt kinds p folder, h.tree.same_length) in
      let (start, found, ends, counted, kids) = block_lem B N bits kinds labels h p folder in
      (
        record {
          structure = B.insert f.structure e false;
          types = WaveletTree.insert B f.types e (new_kind is_folder);
          names = N.insert f.names e name;
        },
        rw (
          access_at B N bits kinds labels h p inside ∙ kind_at B N bits kinds labels h p 1 folder,
          counted,
          rank_at B N bits kinds labels h p inside,
          position_start k start (e - start) found,
          rejoin start e ends,
        ),
        insert_parts f.types kinds e (new_kind is_folder) false name h.types_hold refl
            (block_end_lem bits (suc k) (block_exists h.tree p folder)).0 (ground arith)
            (grow_full-IsTree h.tree p (new_kind is_folder) folder (ground arith)),
      )

  -- On a state that holds a tree, inserting the first node under an empty folder `p` makes the
  -- type of `p` 1 and puts the node, with a set bit, where the block of `p` belongs; the state
  -- holds the tree so extended.
  pub insert_empty :
      (p : ℕ) (name : Name) (is_folder : Bool)
      → get_elem? kinds p ≡ some 2
      → let e = block_end bits (folder_index (set kinds p 1) p) in
        (f' : Flouds B N) × (Flouds.insert B N f p name is_folder ≡ some (f', e))
        × Holds B N f'
            (insert_at bits e true)
            (insert_at (set kinds p 1) e (new_kind is_folder))
            (insert_at labels e name)
  unfolding Flouds.insert Flouds.is_empty_folder
  insert_empty p name is_folder folder =
      let kinds' = set kinds p 1 in
      let k = folder_index kinds' p in
      let e = block_end bits k in
      let there = get_elem?-lt kinds p folder in
      let T = WaveletTree.set_symbol B f.types p 1 in
      let holds = set_symbol-Holds B kinds p 1 h.types_hold there (omega arith) in
      (
        record {
          structure = B.insert f.structure e true;
          types = WaveletTree.insert B T e (new_kind is_folder);
          names = N.insert f.names e name;
        },
        rw (
          access_at B N bits kinds labels h p (omega (arith, h.tree.same_length, there))
              ∙ kind_at B N bits kinds labels h p 2 folder,
          rank_lem B kinds' holds 1 p (omega arith),
          ltb-true p (length kinds') (omega (arith, length-set kinds p 1, there)),
          rank-next full p kinds',
          position_end k,
        ),
        insert_parts T kinds' e (new_kind is_folder) true name holds (length-set kinds p 1)
            (block_end-le bits k) (ground arith)
            (grow_empty-IsTree h.tree p (new_kind is_folder) 2 folder (omega arith) (ground arith)),
      )
