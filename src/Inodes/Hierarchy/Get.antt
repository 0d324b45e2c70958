-- ===== src/Inodes/Hierarchy/Get.antt =====
-- get_inode and writes through its pointer (src/fsm/inode/hierarchy_inode.cpp).
use succinct_filesystem.Base.{
  ℕ, ◌+◌, ◌-◌, ◌*◌, ◌≤◌, ◌<◌, ◌≡◌, refl, ap, ap₂, sym, ◌∙◌, subst, List, ◌∷◌, ◌++◌, Option, none,
  some, arith,
}
use succinct_filesystem.Base.Seq.{length, get_or, set}
use succinct_filesystem.Base.Splice.{get_or-middle, get_or-part}
use succinct_filesystem.Allocation.{AllocationManager}
use succinct_filesystem.Allocation.Apart.{Separation}
use succinct_filesystem.Inodes.{Inode, blank}
use succinct_filesystem.Inodes.Hierarchy.{
  InodeChunk, HierarchyInodeManager, no_chunk, chunk_size, find_chunk, load_chunk, get_inode,
  read_inode, write_inode, flush_cache,
}
use succinct_filesystem.Inodes.Hierarchy.Image.{inode_size}
use succinct_filesystem.Inodes.Hierarchy.View.{
  handles, total, Starts, Starts-split, view, stored, length-stored,
}
use succinct_filesystem.Inodes.Hierarchy.Load.{
  Found, Focused, IsValid, find_chunk_lem, find_chunk-none, focus-IsValid, view-write_inode,
  view_focus,
}
use succinct_filesystem.Inodes.Hierarchy.Cache.{Loaded, flush_lem, load_lem}

-- The pointer `p` into the cache of `m` stands for the inode at `i`.
pub record Points {A : AllocationManager} (m : HierarchyInodeManager A) (p i : ℕ) : Type 0 where
  pub reads : read_inode A m p ≡ get_or (view A m) i blank
  pub writes : (node : Inode) → view A (write_inode A m p node) ≡ set (view A m) i node

module _ {A : AllocationManager} (S : Separation A (chunk_size * inode_size)) where
  pub length-view : (m : HierarchyInodeManager A) → IsValid S m → length (view A m) ≡ total m.chunks
  length-view m v =
      let flushed = flush_lem S m v in
      ap length (sym flushed.inodes) ∙ length-stored A (flush_cache A m).allocation_manager m.chunks

  pub find_lem :
      (m : HierarchyInodeManager A) (inode : ℕ)
      → IsValid S m
      → inode < length (view A m)
      → Found 0 0 m.chunks inode
  find_lem m inode v h =
      find_chunk_lem 0 0 m.chunks inode v.starts (omega arith) (omega (arith, h, length-view m v))

  -- The chunk's inodes stand behind those of the chunks before it.
  pub start_total :
      (m : HierarchyInodeManager A) (pre : List InodeChunk) (c : InodeChunk)
      (post : List InodeChunk)
      → IsValid S m
      → m.chunks ≡ pre ++ c ∷ post
      → c.start_inode ≡ total pre
  start_total m pre c post v e =
      let starts = Starts-split 0 pre (c ∷ post) (subst (λ cs. Starts 0 cs) e v.starts) in
      omega (arith, starts.1.0)

  pub Loaded-IsValid :
      (m m' : HierarchyInodeManager A) (pre : List InodeChunk) (c : InodeChunk)
      (post : List InodeChunk)
      → IsValid S m
      → Loaded S m m' pre c post
      → IsValid S m' × (view A m' ≡ view A m)
  Loaded-IsValid m m' pre c post v l =
      focus-IsValid S m' pre c post (view A m)
        (subst (λ cs. Starts 0 cs) (sym l.chunks_kept) v.starts)
        (subst (λ cs. S.Held m'.allocation_manager (handles cs)) (sym l.chunks_kept) l.held) l.focus
        l.inodes v.fit

  pub focus-Points :
      (m : HierarchyInodeManager A) (pre : List InodeChunk) (c : InodeChunk)
      (post : List InodeChunk) (p : ℕ)
      → S.Held m.allocation_manager (handles m.chunks)
      → Focused m pre c post
      → p < c.num_inodes
      → Points m p (total pre + p)
  unfolding read_inode
  focus-Points m pre c post p held f inside =
      let a = m.allocation_manager in
      let place : total pre + p ≡ length (stored A a pre) + p =
        omega (arith, length-stored A a pre) in
      record {
        reads = sym (
            ap₂ (λ xs i. get_or xs i blank) (view_focus S m pre c post held f) place
            ∙ get_or-part (stored A a pre) m.cached_inodes (stored A a post) p blank
                (omega (arith, inside, f.counted)));
        writes = λ node. view-write_inode S m pre c post p node held f inside;
      }

  pub get-Found :
      (m : HierarchyInodeManager A) (inode : ℕ)
      → (f : Found 0 0 m.chunks inode)
      → get_inode A m inode ≡ (load_chunk A m f.chunk, some (inode - f.chunk.start_inode))
  unfolding get_inode
  get-Found m inode f =
      let at : get_or m.chunks (length f.pre) no_chunk ≡ f.chunk =
        ap (λ cs. get_or cs (length f.pre) no_chunk) f.split
        ∙ get_or-middle f.pre f.chunk f.post no_chunk in
      let index : find_chunk 0 m.chunks inode ≡ some (length f.pre) =
        f.index ∙ ap (λ (n : ℕ). some n) {x = 0 + length f.pre} (omega arith) in
      rw (index, get_inode) (ap (λ c. (load_chunk A m c, some (inode - c.start_inode))) at)

  get_out :
      (m : HierarchyInodeManager A) (inode : ℕ)
      → IsValid S m
      → length (view A m) ≤ inode
      → get_inode A m inode ≡ (m, none)
  unfolding get_inode
  get_out m inode v h =
      let missing =
        find_chunk-none 0 0 m.chunks inode v.starts (omega (arith, h, length-view m v)) in
      rw (missing, get_inode) refl

  -- For an inode number in range, get_inode returns a pointer through which that inode is read and
  -- written, and no inode changes; for any other it returns null and does nothing.
  pub get_inode_lem :
      (m : HierarchyInodeManager A) (inode : ℕ)
      → IsValid S m
      → (inode < length (view A m)
          → (p : ℕ) × ((get_inode A m inode).1 ≡ some p)
            × Points (get_inode A m inode).0 p inode
            × IsValid S (get_inode A m inode).0
            × (view A (get_inode A m inode).0 ≡ view A m))
        × (length (view A m) ≤ inode → get_inode A m inode ≡ (m, none))
  get_inode_lem m inode v = (
    λ h.
        let f = find_lem m inode v h in
        let start = start_total m f.pre f.chunk f.post v f.split in
        let p = inode - f.chunk.start_inode in
        let l = load_lem S m f.pre f.chunk f.post v f.split in
        let m' = load_chunk A m f.chunk in
        let kept = Loaded-IsValid m m' f.pre f.chunk f.post v l in
        let points =
          focus-Points m' f.pre f.chunk f.post p kept.0.held l.focus
            (omega (arith, f.from, f.to)) in
        let r = get-Found m inode f in
        (
          p,
          ap (λ (x : HierarchyInodeManager A × Option ℕ). x.1) r,
          subst (λ (x : HierarchyInodeManager A × Option ℕ). Points x.0 p inode) (sym r)
              (subst (λ i. Points m' p i) {x = total f.pre + p} (omega (arith, start, f.from))
                points),
          subst (λ (x : HierarchyInodeManager A × Option ℕ). IsValid S x.0) (sym r) kept.0,
          ap (λ (x : HierarchyInodeManager A × Option ℕ). view A x.0) r ∙ kept.1,
        ),
    λ h. get_out m inode v h,
  )
