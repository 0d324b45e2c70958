-- ===== src/Inodes/Hierarchy/Lost.antt =====
-- What becomes of a write through the pointer that get_inode returns
-- (src/fsm/inode/hierarchy_inode.cpp): get_inode does not mark the cache dirty.
use succinct_filesystem.Base.{
  ℕ, ◌+◌, ◌*◌, ◌<◌, ◌≡◌, ◌≢◌, refl, ap, sym, ◌∙◌, subst, false, List, ◌∷◌, ◌++◌, Option, some, ◌==◌,
  arith,
}
use succinct_filesystem.Base.Seq.{length}
use succinct_filesystem.Allocation.{AllocationManager}
use succinct_filesystem.Allocation.Apart.{Separation}
use succinct_filesystem.Inodes.{Inode}
use succinct_filesystem.Inodes.Hierarchy.{
  InodeChunk, HierarchyInodeManager, chunk_size, find_chunk, flush_cache, fetch_chunk, load_chunk,
  get_inode, write_inode,
}
use succinct_filesystem.Inodes.Hierarchy.Image.{inode_size}
use succinct_filesystem.Inodes.Hierarchy.View.{handles, view, stored, disk}
use succinct_filesystem.Inodes.Hierarchy.Load.{Found, IsValid, view_at, held_at}
use succinct_filesystem.Inodes.Hierarchy.Cache.{
  flush_lem, flush-clean, load_lem, stored_focus, split_unique,
}
use succinct_filesystem.Inodes.Hierarchy.Get.{find_lem, get-Found, Loaded-IsValid}

module _ {A : AllocationManager} (S : Separation A (chunk_size * inode_size)) where
  load-clean :
      (m : HierarchyInodeManager A) (c : InodeChunk)
      → m.cache_dirty ≡ false
      → (load_chunk A m c).cache_dirty ≡ false
  unfolding load_chunk fetch_chunk
  load-clean m c e = ground (arith, e)

  -- Of a clean cache, another chunk is loaded from the device.
  fetch_instead :
      (m : HierarchyInodeManager A) (h : ℕ) (pre : List InodeChunk) (c : InodeChunk)
      (post : List InodeChunk)
      → S.Held m.allocation_manager (handles m.chunks)
      → m.cache_dirty ≡ false
      → m.cache_handle ≡ some h
      → h ≢ c.handle
      → m.chunks ≡ pre ++ c ∷ post
      → view A (load_chunk A m c) ≡ stored A m.allocation_manager m.chunks
  unfolding load_chunk fetch_chunk disk
  fetch_instead m h pre c post held clean cached ne e =
      let other : (h == c.handle) ≡ false = ground (arith, ne) in
      let fetched : load_chunk A m c ≡ fetch_chunk A m c = ground (arith, cached, other) in
      let kept = flush-clean S m clean in
      let held' =
        subst (λ (x : HierarchyInodeManager A). S.Held x.allocation_manager (handles x.chunks))
          (sym kept) held in
      let split = ap (λ (x : HierarchyInodeManager A). x.chunks) kept ∙ e in
      ap (view A) fetched
      ∙ view_at S (fetch_chunk A m c) pre c post held' split refl
      ∙ sym (stored_focus S (flush_cache A m).allocation_manager m.chunks pre c post e)
      ∙ ap (λ (x : HierarchyInodeManager A). stored A x.allocation_manager m.chunks) kept

  -- Of two chunks at different indices, the allocations differ.
  handles_differ :
      (m : HierarchyInodeManager A) (i j : ℕ)
      → IsValid S m
      → (f : Found 0 0 m.chunks i) (g : Found 0 0 m.chunks j)
      → find_chunk 0 m.chunks j ≢ find_chunk 0 m.chunks i
      → f.chunk.handle ≢ g.chunk.handle
  handles_differ m i j v f g differ same =
      let a = m.allocation_manager in
      let at_f =
        S.distinct a (handles f.pre) f.chunk.handle (handles f.post)
          (held_at S a m.chunks f.pre f.chunk f.post f.split v.held) in
      let at_g =
        S.distinct a (handles g.pre) g.chunk.handle (handles g.post)
          (held_at S a m.chunks g.pre g.chunk g.post g.split v.held) in
      let unique =
        split_unique g.pre g.post f.pre f.post g.chunk f.chunk (sym f.split ∙ g.split) same at_g.0
          at_f.0 in
      absurd (
        differ (
          g.index
          ∙ ap (λ (pre : List InodeChunk). some (0 + length pre)) (sym unique.0)
          ∙ sym f.index))

  -- While the cache is clean, a write through the pointer that get_inode returns is lost as soon as
  -- an inode of another chunk is got: all inodes are then what they were before the write.
  pub lost_write :
      (m : HierarchyInodeManager A) (i j p : ℕ) (node : Inode)
      → IsValid S m
      → m.cache_dirty ≡ false
      → i < length (view A m)
      → j < length (view A m)
      → find_chunk 0 m.chunks j ≢ find_chunk 0 m.chunks i
      → view A (get_inode A (write_inode A (get_inode A m i).0 p node) j).0 ≡ view A m
  unfolding write_inode
  lost_write m i j p node v clean i_lt j_lt differ =
      let f = find_lem S m i v i_lt in
      let g = find_lem S m j v j_lt in
      let l = load_lem S m f.pre f.chunk f.post v f.split in
      let m1 = load_chunk A m f.chunk in
      let v1 = Loaded-IsValid S m m1 f.pre f.chunk f.post v l in
      let m2 = write_inode A m1 p node in
      let clean1 = load-clean m f.chunk clean in
      let flushed = flush_lem S m1 v1.0 in
      let synced : stored A m1.allocation_manager m1.chunks ≡ view A m1 =
        ap (λ (x : HierarchyInodeManager A). stored A x.allocation_manager m1.chunks)
          (sym (flush-clean S m1 clean1))
        ∙ flushed.inodes in
      let found : Found 0 0 m2.chunks j = subst (λ cs. Found 0 0 cs j) (sym l.chunks_kept) g in
      let first = ap (λ (x : HierarchyInodeManager A × Option ℕ). x.0) (get-Found S m i f) in
      let chunk_same : found.chunk ≡ g.chunk = refl in
      ap (λ (x : HierarchyInodeManager A). view A (get_inode A (write_inode A x p node) j).0) first
      ∙ ap (λ (x : HierarchyInodeManager A × Option ℕ). view A x.0) (get-Found S m2 j found)
      ∙ fetch_instead m2 f.chunk.handle found.pre found.chunk found.post v1.0.held clean1
          l.focus.cached
          (λ e.
            handles_differ m i j v f g differ (e ∙ ap (λ (x : InodeChunk). x.handle) chunk_same))
          found.split
      ∙ synced
      ∙ v1.1
