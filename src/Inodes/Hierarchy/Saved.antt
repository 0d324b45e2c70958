-- ===== src/Inodes/Hierarchy/Saved.antt =====
-- serialize and deserialize (src/fsm/inode/hierarchy_inode.cpp): the inodes stay in their
-- allocations, and the table of chunks is written and read back.
use succinct_filesystem.Base.{
  ℕ, ◌*◌, ◌^◌, ◌<◌, ◌≡◌, inl, refl, ap, false, sym, ◌∙◌, subst, List, [], ◌∷◌, ◌++◌, none, some,
  arith,
}
use mathlib.Core.List.{append_assoc}
use succinct_filesystem.Base.Seq.{length, length-append}
use succinct_filesystem.Allocation.{AllocationManager}
use succinct_filesystem.Allocation.Apart.{Separation}
use succinct_filesystem.Serial.Format.{All, to_bytes, length-to_bytes, from_bytes-to_bytes}
use succinct_filesystem.Inodes.Hierarchy.{
  InodeChunk, HierarchyInodeManager, chunk_size, flush_cache, serialize, deserialize,
  get_serialized_size, serialize_chunk, serialize_chunks, deserialize_chunk, deserialize_chunks,
}
use succinct_filesystem.Inodes.Hierarchy.Image.{inode_size, Fits}
use succinct_filesystem.Inodes.Hierarchy.View.{handles, Starts, view, contents-none, stored}
use succinct_filesystem.Inodes.Hierarchy.Load.{IsValid}
use succinct_filesystem.Inodes.Hierarchy.Cache.{flush_lem}

-- The numbers of a chunk are of type size_t.
abbrev pub IsChunk : InodeChunk → Type 0
IsChunk c = (c.handle < 2 ^ 64) × (c.start_inode < 2 ^ 64) × (c.num_inodes < 2 ^ 64)

chunk_back :
    (c : InodeChunk) (rest : List ℕ)
    → IsChunk c
    → deserialize_chunk (serialize_chunk c ++ rest) ≡ some (c, rest)
unfolding deserialize_chunk serialize_chunk
chunk_back c rest v =
    let t1 = to_bytes 8 c.start_inode in
    let t2 = to_bytes 8 c.num_inodes in
    rw
      (
        append_assoc (to_bytes 8 c.handle) (t1 ++ t2) rest,
        append_assoc t1 t2 rest,
        from_bytes-to_bytes 8 c.handle (t1 ++ (t2 ++ rest)) v.0,
        from_bytes-to_bytes 8 c.start_inode (t2 ++ rest) v.1,
        from_bytes-to_bytes 8 c.num_inodes rest v.2,
      )
      refl

chunks_back :
    (cs : List InodeChunk) (rest : List ℕ)
    → All IsChunk cs
    → deserialize_chunks (length cs) (serialize_chunks cs ++ rest) ≡ some (cs, rest)
unfolding deserialize_chunks serialize_chunks
chunks_back [] rest v = refl
chunks_back (c ∷ cs) rest v =
    rw
      (
        append_assoc (serialize_chunk c) (serialize_chunks cs) rest,
        chunk_back c (serialize_chunks cs ++ rest) v.0,
        chunks_back cs rest v.1,
      )
      refl

length-serialize_chunks : (cs : List InodeChunk) → length (serialize_chunks cs) ≡ length cs * 24
unfolding serialize_chunks serialize_chunk
length-serialize_chunks [] = refl
length-serialize_chunks (c ∷ cs) =
    let t0 = to_bytes 8 c.handle in
    let t1 = to_bytes 8 c.start_inode in
    let t2 = to_bytes 8 c.num_inodes in
    omega (
      arith,
      length-append (t0 ++ (t1 ++ t2)) (serialize_chunks cs),
      length-append t0 (t1 ++ t2),
      length-append t1 t2,
      length-to_bytes 8 c.handle,
      length-to_bytes 8 c.start_inode,
      length-to_bytes 8 c.num_inodes,
      length-serialize_chunks cs,
    )

module _ {A : AllocationManager} (S : Separation A (chunk_size * inode_size)) where
  -- A manager that loads the table of chunks which serialize wrote, over the allocation manager as
  -- serialize left it, is well formed and stands for the same inodes, also those that were only in
  -- the cache; get_serialized_size announces the number of bytes.
  pub saved_lem :
      (m : HierarchyInodeManager A) (rest : List ℕ)
      → IsValid S m
      → length m.chunks < 2 ^ 64
      → All IsChunk m.chunks
      → (length (serialize A m).1 ≡ get_serialized_size A m)
        × (r : HierarchyInodeManager A) × (deserialize A
              (serialize A m).0
              ((serialize A m).1 ++ rest)
            ≡ some (r, rest))
        × IsValid S r
        × (view A r ≡ view A m)
  unfolding serialize deserialize get_serialized_size view
  saved_lem m rest v few numbers =
      let f = flush_lem S m v in
      let flushed = flush_cache A m in
      let cs = flushed.chunks in
      let a = flushed.allocation_manager in
      let same = f.chunks_kept in
      let count : length cs ≡ length m.chunks = ap length same in
      let read = chunks_back cs rest (subst (λ ds. All IsChunk ds) (sym same) numbers) in
      let head =
        from_bytes-to_bytes 8 (length cs) (serialize_chunks cs ++ rest)
          (omega (arith, few, count)) in
      let loaded : HierarchyInodeManager A = record flushed {
        chunks = cs;
        cache_handle = none;
        cached_inodes = [];
        cache_dirty = false;
      } in
      let seen : view A loaded ≡ view A m =
        contents-none A a [] cs ∙ ap (stored A a) same ∙ f.inodes in
      (
        omega (
          arith,
          length-append (to_bytes 8 (length cs)) (serialize_chunks cs),
          length-to_bytes 8 (length cs),
          length-serialize_chunks cs,
          count,
        ),
        loaded,
        rw (append_assoc (to_bytes 8 (length cs)) (serialize_chunks cs) rest, head, read) refl,
        record {
          starts = subst (λ ds. Starts 0 ds) (sym same) v.starts;
          held = subst (λ ds. S.Held a (handles ds)) (sym same) f.held;
          cache = inl refl;
          fit = subst (λ xs. All Fits xs) (sym seen) v.fit;
        },
        seen,
      )
