-- ===== src/Inodes/Hierarchy/Insertion.antt =====
-- insert_inode as a whole (src/fsm/inode/hierarchy_inode.cpp) against insertion into a sequence.
use succinct_filesystem.Base.{
  ℕ, ◌+◌, ◌-◌, ◌*◌, ◌≤◌, ◌≡◌, inl, inr, refl, ap, ap₂, sym, ◌∙◌, subst, true, List, [], ◌∷◌, ◌++◌,
  leb, arith, Bool-cases, leb→le, leb→lt, ◌==◌,
}
use succinct_filesystem.Base.Seq.{length, get_or, insert_at}
use succinct_filesystem.Base.Splice.{get_or-middle}
use succinct_filesystem.Allocation.{AllocationManager}
use succinct_filesystem.Allocation.Apart.{Separation}
use succinct_filesystem.Serial.Format.{All}
use succinct_filesystem.Inodes.{blank}
use succinct_filesystem.Inodes.Hierarchy.{
  InodeChunk, HierarchyInodeManager, chunk_size, no_chunk, insert_cached, insert_into, insert_inode,
  first_chunk, split_chunk,
}
use succinct_filesystem.Inodes.Hierarchy.Image.{
  inode_size, Fits, blank-Fits, to_memory, length-to_memory,
}
use succinct_filesystem.Inodes.Hierarchy.View.{
  handles, total, Starts, Starts-split, Starts-shift_starts_up, view, stored, contents,
}
use succinct_filesystem.Inodes.Hierarchy.Load.{IsValid}
use succinct_filesystem.Inodes.Hierarchy.Cache.{disk_written}
use succinct_filesystem.Inodes.Hierarchy.Get.{start_total}
use succinct_filesystem.Inodes.Hierarchy.Cached.{insert_cached_lem, grown-Starts}
use succinct_filesystem.Inodes.Hierarchy.Insert.{
  Inserted, target_lem, Focused-Inserted, split_chunk_lem, All-insert_at,
}

no_chunks : (cs : List InodeChunk) → (length cs == 0) ≡ true → cs ≡ []
no_chunks [] h = refl
no_chunks (c ∷ cs) h = absurd (ground (arith, h))

module _ {A : AllocationManager} (S : Separation A (chunk_size * inode_size)) where
  first_chunk_lem :
      (m : HierarchyInodeManager A) (inode : ℕ)
      → IsValid S m
      → S.HasRoom m.allocation_manager
      → m.chunks ≡ []
      → inode ≤ length (view A m)
      → Inserted S m inode (insert_at (view A m) inode blank) (first_chunk A m)
  unfolding first_chunk stored contents view
  first_chunk_lem m inode v room e h =
      let none_yet : view A m ≡ [] =
        ap (contents A m.allocation_manager m.cache_handle m.cached_inodes) e in
      let zero_inode : 0 ≡ inode = omega (arith, h, ap length none_yet) in
      let given = A.allocate m.allocation_manager (chunk_size * inode_size) in
      let held =
        S.allocate-Held m.allocation_manager [] []
          (subst (λ cs. S.Held m.allocation_manager (handles cs)) e v.held) room in
      let chunk : InodeChunk = record { handle = given.1; start_inode = 0; num_inodes = 1 } in
      let fit : All Fits (blank ∷ []) = (blank-Fits, tt) in
      Focused-Inserted S m _ [] chunk [] 0 inode (insert_at (view A m) inode blank)
        (omega (arith, zero_inode)) (refl, omega arith, omega arith, tt)
        (S.write-Held given.0 [] given.1 [] (to_memory (blank ∷ [])) held
          (omega (arith, length-to_memory (blank ∷ []) fit)))
        (record {
          split = ap (λ cs. chunk ∷ cs) e;
          cached = refl;
          counted = refl;
          clean = λ d. disk_written S given.0 chunk (blank ∷ []) fit refl;
        })
        (sym (ap₂ (λ xs i. insert_at xs i blank) none_yet (sym zero_inode)))
        (All-insert_at (view A m) inode blank v.fit blank-Fits) (omega arith)

  insert_into_lem :
      (m : HierarchyInodeManager A) (pre : List InodeChunk) (c : InodeChunk)
      (post : List InodeChunk) (inode : ℕ)
      → IsValid S m
      → S.HasRoom m.allocation_manager
      → m.chunks ≡ pre ++ c ∷ post
      → c.start_inode ≤ inode
      → inode ≤ c.start_inode + c.num_inodes
      → Inserted S m inode (insert_at (view A m) inode blank) (insert_into A m (length pre) c inode)
  unfolding insert_into
  insert_into_lem m pre c post inode v room e from to =
      let inodes = insert_at (view A m) inode blank in
      let p = inode - c.start_inode in
      let o = insert_cached_lem S m pre c post inode v e from to in
      let fit = All-insert_at (view A m) inode blank v.fit blank-Fits in
      let start = start_total S m pre c post v e in
      let place : total pre + p ≡ inode = omega (arith, start, from) in
      let starts = subst (λ cs. Starts 0 cs) e v.starts in
      let parts = Starts-split 0 pre (c ∷ post) starts in
      elim (Bool-cases (leb (c.num_inodes + 1) chunk_size)) [
        | inl roomy ↦ rw roomy (
            Focused-Inserted S m _ pre (record c { num_inodes = c.num_inodes + 1 }) _ p inode inodes
              place (grown-Starts pre c post starts (leb→le (c.num_inodes + 1) chunk_size roomy))
              o.held o.focus o.stands_for fit (omega (arith, from, to)))
        | inr full ↦
            let many : c.num_inodes ≡ chunk_size =
              omega (arith, parts.1.2, leb→lt (c.num_inodes + 1) chunk_size full) in
            rw full (
              subst
                (λ i.
                  Inserted S m i inodes
                    (split_chunk A (insert_cached A m (length pre) c inode) (length pre) c p))
                place
                (split_chunk_lem S m (insert_cached A m (length pre) c inode) pre c _ p inodes many
                  o (o.room room) parts.0 start
                  (Starts-shift_starts_up (0 + total pre + c.num_inodes)
                    (total pre + (chunk_size + 1)) post (omega (arith, many)) parts.1.3)
                  fit (omega (arith, to, from, many))))
      ]

  -- An insertion at a position up to the number of inodes, be it the first of all, into a chunk with
  -- room or into one that is split, puts a blank inode there and changes no other; the pointer
  -- returned stands for that inode, and the manager stays well formed.
  pub insert_inode_lem :
      (m : HierarchyInodeManager A) (inode : ℕ)
      → IsValid S m
      → S.HasRoom m.allocation_manager
      → inode ≤ length (view A m)
      → Inserted S m inode (insert_at (view A m) inode blank) (insert_inode A m inode)
  unfolding insert_inode
  insert_inode_lem m inode v room h = elim (Bool-cases (length m.chunks == 0)) [
    | inl empty ↦ rw empty (first_chunk_lem m inode v room (no_chunks m.chunks empty) h)
    | inr filled ↦
        let t = target_lem S m inode v (ground (arith, filled)) h in
        let at : get_or m.chunks (length t.pre) no_chunk ≡ t.chunk =
          ap (λ cs. get_or cs (length t.pre) no_chunk) t.split
          ∙ get_or-middle t.pre t.chunk t.post no_chunk in
        rw filled (
          rw (t.index, at)
            (insert_into_lem m t.pre t.chunk t.post inode v room t.split t.from t.to))
  ]
