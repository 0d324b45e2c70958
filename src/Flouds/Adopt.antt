-- ===== src/Flouds/Adopt.antt =====
-- The parent of a node that was just inserted (src/flouds/flouds.cpp, Flouds::insert and
-- Flouds::parent).
use succinct_filesystem.Base.{ℕ, suc, ◌+◌, ◌≤◌, ◌<◌, ◌≡◌, ◌∙◌, Bool, true, false, List, some, arith}
use succinct_filesystem.Base.Seq.{
  length, get_elem?, insert_at, set, length-insert_at, length-set, get_elem?-lt,
  get_elem?-insert_at_below, get_elem?-set_self,
}
use succinct_filesystem.BitVector.{BitVector, ones}
use succinct_filesystem.BitVector.Count.{rank, one_if}
use succinct_filesystem.BitVector.Count.Edits.{rank-insert_below, rank-insert_above}
use succinct_filesystem.NameSequence.{NameSequence, Name}
use succinct_filesystem.Flouds
use succinct_filesystem.Flouds.{Flouds}
use succinct_filesystem.Flouds.Shape.{
  full, folder_index, IsTree, block_end, block_end_lem, block_exists, block_start,
}
use succinct_filesystem.Flouds.Grow.{first_block}
use succinct_filesystem.Flouds.Refine.{Holds}
use succinct_filesystem.Flouds.Family.{parent_of_block}

module _ (B : BitVector) (N : NameSequence) {f' : Flouds B N} (bits : List Bool) (kinds : List ℕ)
    (labels : List Name) where
  -- A node put at `e`, behind the folder `p`, at the end of its block or as a block of its own.
  adopted :
      (kinds' : List ℕ) (p e s : ℕ) (new_block : Bool)
      → Holds B N f' (insert_at bits e new_block) (insert_at kinds' e s) labels
      → length kinds' ≡ length bits
      → get_elem? kinds' p ≡ some 1
      → p < e
      → e ≤ length bits
      → rank ones e bits + one_if new_block ≡ suc (folder_index kinds' p)
      → Flouds.parent B N f' e ≡ some p
  adopted kinds' p e s new_block h same folder after inside block =
      parent_of_block B N (insert_at bits e new_block) (insert_at kinds' e s) labels h p e
        (get_elem?-insert_at_below kinds' e p s (omega (arith, same)) after ∙ folder)
        (omega (arith, length-insert_at bits e new_block))
        (omega (
          arith,
          rank-insert_above ones e e bits new_block (omega arith) inside,
          rank-insert_below full (suc p) e kinds' s (omega arith) (omega (arith, same)),
        ))

  module _ (t : IsTree bits kinds) (p s : ℕ) where
    -- The parent of a node that was inserted under a folder with children.
    pub adopted_full :
        get_elem? kinds p ≡ some 1
        → let e = block_end bits (suc (folder_index kinds p)) in
          Holds B N f' (insert_at bits e false) (insert_at kinds e s) labels
          → Flouds.parent B N f' e ≡ some p
    adopted_full folder h =
        let k = suc (folder_index kinds p) in
        let (start, found, after, inside, before, ends) = block_start t p folder in
        let end = block_end_lem bits k (block_exists t p folder) in
        adopted kinds p (block_end bits k) s false h t.same_length folder
          (omega (arith, after, ends)) end.0 (omega (arith, end.1))

    -- The parent of a node that was inserted under an empty folder.
    pub adopted_empty :
        get_elem? kinds p ≡ some 2
        → let e = block_end bits (folder_index (set kinds p 1) p) in
          Holds B N f' (insert_at bits e true) (insert_at (set kinds p 1) e s) labels
          → Flouds.parent B N f' e ≡ some p
    adopted_empty folder h =
        let (after, inside, blocks, index) = first_block t p 2 folder (omega arith) in
        adopted (set kinds p 1) p (block_end bits (folder_index (set kinds p 1) p)) s true h
          (length-set kinds p 1 ∙ t.same_length)
          (get_elem?-set_self kinds p 1 (get_elem?-lt kinds p folder)) after inside
          (omega (arith, blocks))
