-- ===== src/Inodes/Hierarchy/Load.antt =====
-- What is kept true of a hierarchy inode manager (src/fsm/inode/hierarchy_inode.cpp), how a chunk is
-- found, and that flushing and loading a chunk change where the inodes lie but not what they are.
use succinct_filesystem.Base.{
  ℕ, suc, ◌+◌, ◌*◌, ◌≤◌, ◌<◌, ◌≡◌, ◌⊎◌, inr, refl, ap, ap₂, sym, ◌∙◌, subst, false, List, [], ◌∷◌,
  ◌++◌, none, some, arith,
}
use native.Mathlib.Decide.{dec_lt}
use succinct_filesystem.Base.Seq.{length, set}
use succinct_filesystem.Base.Splice.{set-part}
use succinct_filesystem.Allocation.{AllocationManager}
use succinct_filesystem.Allocation.Apart.{Separation}
use succinct_filesystem.Serial.Format.{All}
use succinct_filesystem.Inodes.{Inode}
use succinct_filesystem.Inodes.Hierarchy.{
  InodeChunk, HierarchyInodeManager, chunk_size, find_chunk, write_inode,
}
use succinct_filesystem.Inodes.Hierarchy.Image.{inode_size, Fits}
use succinct_filesystem.Inodes.Hierarchy.View.{
  handles, total, Starts, handles_append, disk, contents, view, stored, contents_focus,
  length-stored,
}

-- Where an inode number lies among the chunks.
pub record Found (s k : ℕ) (cs : List InodeChunk) (inode : ℕ) : Type 0 where
  pub pre : List InodeChunk
  pub chunk : InodeChunk
  pub post : List InodeChunk
  pub split : cs ≡ pre ++ chunk ∷ post
  pub index : find_chunk k cs inode ≡ some (k + length pre)
  pub from : chunk.start_inode ≤ inode
  pub to : inode < chunk.start_inode + chunk.num_inodes

pub find_chunk_lem :
    (s k : ℕ) (cs : List InodeChunk) (inode : ℕ)
    → Starts s cs
    → s ≤ inode
    → inode < s + total cs
    → Found s k cs inode
unfolding find_chunk
find_chunk_lem s k [] inode v low high = absurd (omega arith)
find_chunk_lem s k (c ∷ cs) inode v low high = elim (dec_lt inode (s + c.num_inodes)) [
  | yes inside ↦ record {
    pre = [];
    chunk = c;
    post = cs;
    split = refl;
    index = ground (arith, v.0);
    from = omega (arith, v.0);
    to = omega (arith, v.0);
  }
  | no behind ↦
      let later =
        find_chunk_lem (s + c.num_inodes) (suc k) cs inode v.3 (omega arith) (omega arith) in
      record {
        pre = c ∷ later.pre;
        chunk = later.chunk;
        post = later.post;
        split = ap (λ t. c ∷ t) later.split;
        index =
            ground (arith, v.0, behind)
            ∙ later.index
            ∙ ap (λ (n : ℕ). some n) {x = suc k + length later.pre} (omega arith);
        from = later.from;
        to = later.to;
      }
]

pub find_chunk-none :
    (s k : ℕ) (cs : List InodeChunk) (inode : ℕ)
    → Starts s cs
    → s + total cs ≤ inode
    → find_chunk k cs inode ≡ none
unfolding find_chunk
find_chunk-none s k [] inode v high = refl
find_chunk-none s k (c ∷ cs) inode v high =
    let later = find_chunk-none (s + c.num_inodes) (suc k) cs inode v.3 (omega (arith, high)) in
    ground (arith, v.0, later)

-- `chunk` is the cached chunk, with chunks before and behind it; the cache agrees with the device,
-- unless it is marked dirty.
pub record Focused {A : AllocationManager} (m : HierarchyInodeManager A) (pre : List InodeChunk)
    (chunk : InodeChunk) (post : List InodeChunk) : Type 0 where
  pub split : m.chunks ≡ pre ++ chunk ∷ post
  pub cached : m.cache_handle ≡ some chunk.handle
  pub counted : length m.cached_inodes ≡ chunk.num_inodes
  pub clean : m.cache_dirty ≡ false → disk A m.allocation_manager chunk ≡ m.cached_inodes

module _ {A : AllocationManager} (S : Separation A (chunk_size * inode_size)) where
  -- The chunks follow one another, their allocations do not overlap, and the cache is empty or holds
  -- one of them.
  pub record IsValid (m : HierarchyInodeManager A) : Type 0 where
    pub starts : Starts 0 m.chunks
    pub held : S.Held m.allocation_manager (handles m.chunks)
    pub cache :
        (m.cache_handle ≡ none)
        ⊎ ((pre : List InodeChunk) × (chunk : InodeChunk) × (post : List InodeChunk) × Focused m pre
              chunk post)
    pub fit : All Fits (view A m)

  pub held_at :
      (a : A.Carrier) (cs pre : List InodeChunk) (c : InodeChunk) (post : List InodeChunk)
      → cs ≡ pre ++ c ∷ post
      → S.Held a (handles cs)
      → S.Held a (handles pre ++ c.handle ∷ handles post)
  held_at a cs pre c post e h =
      subst (λ hs. S.Held a hs) (ap handles e ∙ handles_append pre (c ∷ post)) h

  pub view_at :
      (m : HierarchyInodeManager A) (pre : List InodeChunk) (c : InodeChunk)
      (post : List InodeChunk)
      → S.Held m.allocation_manager (handles m.chunks)
      → m.chunks ≡ pre ++ c ∷ post
      → m.cache_handle ≡ some c.handle
      → view A m
        ≡ stored A m.allocation_manager pre
          ++ (m.cached_inodes ++ stored A m.allocation_manager post)
  unfolding view
  view_at m pre c post held split cached =
      let apart =
        S.distinct m.allocation_manager (handles pre) c.handle (handles post)
          (held_at m.allocation_manager m.chunks pre c post split held) in
      ap₂ (λ h cs. contents A m.allocation_manager h m.cached_inodes cs) cached split
      ∙ contents_focus A m.allocation_manager m.cached_inodes pre c post apart.0 apart.1

  pub view_focus :
      (m : HierarchyInodeManager A) (pre : List InodeChunk) (c : InodeChunk)
      (post : List InodeChunk)
      → S.Held m.allocation_manager (handles m.chunks)
      → Focused m pre c post
      → view A m
        ≡ stored A m.allocation_manager pre
          ++ (m.cached_inodes ++ stored A m.allocation_manager post)
  view_focus m pre c post held f = view_at m pre c post held f.split f.cached

  -- A write through a pointer into the cache.
  pub view-write_inode :
      (m : HierarchyInodeManager A) (pre : List InodeChunk) (c : InodeChunk)
      (post : List InodeChunk) (p : ℕ) (node : Inode)
      → S.Held m.allocation_manager (handles m.chunks)
      → Focused m pre c post
      → p < c.num_inodes
      → view A (write_inode A m p node) ≡ set (view A m) (total pre + p) node
  unfolding write_inode
  view-write_inode m pre c post p node held f inside =
      let a = m.allocation_manager in
      view_at (write_inode A m p node) pre c post held f.split f.cached
      ∙ sym (
          set-part (stored A a pre) m.cached_inodes (stored A a post) p node
            (omega (arith, inside, f.counted)))
      ∙ ap₂ (λ xs i. set xs i node) (sym (view_focus m pre c post held f))
          (omega (arith, length-stored A a pre))

  -- The other way: a manager with a cached chunk that holds `inodes`.
  pub focus-IsValid :
      (m : HierarchyInodeManager A) (pre : List InodeChunk) (c : InodeChunk)
      (post : List InodeChunk) (inodes : List Inode)
      → Starts 0 m.chunks
      → S.Held m.allocation_manager (handles m.chunks)
      → Focused m pre c post
      → stored A m.allocation_manager pre ++ (m.cached_inodes ++ stored A m.allocation_manager post)
        ≡ inodes
      → All Fits inodes
      → IsValid m × (view A m ≡ inodes)
  focus-IsValid m pre c post inodes starts held f e fit =
      let same = view_focus m pre c post held f ∙ e in
      (
        record {
          starts = starts;
          held = held;
          cache = inr (pre, c, post, f);
          fit = subst (λ xs. All Fits xs) (sym same) fit;
        },
        same,
      )
