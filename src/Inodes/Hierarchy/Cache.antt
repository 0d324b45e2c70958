-- ===== src/Inodes/Hierarchy/Cache.antt =====
-- flush_cache and load_chunk (src/fsm/inode/hierarchy_inode.cpp) move inodes between the cache and
-- the device.
use succinct_filesystem.Base.{
  ℕ, ◌+◌, ◌*◌, ◌≤◌, ◌≡◌, ◌≢◌, inl, inr, refl, ap, ap₂, sym, ◌∙◌, subst, true, false, List, [], ◌∷◌,
  ◌++◌, none, some, ◌==◌, ==_iff, arith, Bool-cases, Option-cases,
}
use succinct_filesystem.Base.Seq.{length}
use succinct_filesystem.Allocation.{AllocationManager}
use succinct_filesystem.Allocation.Apart.{Separation}
use succinct_filesystem.Serial.Format.{All, All-split}
use succinct_filesystem.Inodes.{Inode}
use succinct_filesystem.Inodes.Hierarchy.{
  InodeChunk, HierarchyInodeManager, chunk_size, flush_cache, fetch_chunk, load_chunk,
}
use succinct_filesystem.Inodes.Hierarchy.Image.{
  inode_size, to_memory, from_memory, length-to_memory, from_memory-to_memory, Fits,
}
use succinct_filesystem.Inodes.Hierarchy.View.{
  handles, total, Starts, handles_append, Starts-split, disk, length-disk, contents, view, stored,
  contents-none, stored_append, stored-cong,
}
use succinct_filesystem.Inodes.Hierarchy.Load.{Focused, IsValid, held_at, view_focus}

module _ {A : AllocationManager} (S : Separation A (chunk_size * inode_size)) where
  -- All inodes lie on the device.
  pub record Flushed (m m' : HierarchyInodeManager A) : Type 0 where
    pub chunks_kept : m'.chunks ≡ m.chunks
    pub held : S.Held m'.allocation_manager (handles m.chunks)
    pub inodes : stored A m'.allocation_manager m.chunks ≡ view A m
    pub room : S.HasRoom m.allocation_manager → S.HasRoom m'.allocation_manager

  flush-none : (m : HierarchyInodeManager A) → m.cache_handle ≡ none → flush_cache A m ≡ m
  unfolding flush_cache
  flush-none m e = ground (arith, e)

  pub flush-clean : (m : HierarchyInodeManager A) → m.cache_dirty ≡ false → flush_cache A m ≡ m
  unfolding flush_cache
  flush-clean m e = ground (arith, e)

  flush-dirty :
      (m : HierarchyInodeManager A) (handle : ℕ)
      → m.cache_handle ≡ some handle
      → m.cache_dirty ≡ true
      → flush_cache A m ≡ record m {
        allocation_manager = A.write m.allocation_manager handle (to_memory m.cached_inodes) 0;
        cache_dirty = false;
      }
  unfolding flush_cache
  flush-dirty m handle e d = ground (arith, e, d)

  -- Nothing is cached, or what is cached lies on the device too.
  unflushed :
      (m : HierarchyInodeManager A)
      → S.Held m.allocation_manager (handles m.chunks)
      → stored A m.allocation_manager m.chunks ≡ view A m
      → Flushed m m
  unflushed m held e = record { chunks_kept = refl; held = held; inodes = e; room = λ r. r }

  pub stored_focus :
      (a : A.Carrier) (cs pre : List InodeChunk) (c : InodeChunk) (post : List InodeChunk)
      → cs ≡ pre ++ c ∷ post
      → stored A a cs ≡ stored A a pre ++ (disk A a c ++ stored A a post)
  unfolding stored
  stored_focus a cs pre c post e = ap (stored A a) e ∙ stored_append A a pre (c ∷ post)

  pub disk_written :
      (a : A.Carrier) (c : InodeChunk) (inodes : List Inode)
      → All Fits inodes
      → length inodes ≡ c.num_inodes
      → disk A (A.write a c.handle (to_memory inodes) 0) c ≡ inodes
  unfolding disk
  disk_written a c inodes fit counted =
      let bytes : length (to_memory inodes) ≡ c.num_inodes * inode_size =
        omega (arith, length-to_memory inodes fit, counted) in
      ap
        (λ n.
          from_memory c.num_inodes (A.read (A.write a c.handle (to_memory inodes) 0) c.handle n 0))
        (sym bytes)
      ∙ ap₂ from_memory (sym counted) (A.read-write a c.handle (to_memory inodes) 0)
      ∙ from_memory-to_memory inodes fit

  flush_write :
      (m : HierarchyInodeManager A) (pre : List InodeChunk) (c : InodeChunk)
      (post : List InodeChunk)
      → IsValid S m
      → Focused m pre c post
      → Flushed m (record m {
        allocation_manager = A.write m.allocation_manager c.handle (to_memory m.cached_inodes) 0;
        cache_dirty = false;
      })
  flush_write m pre c post v f =
      let a = m.allocation_manager in
      let bytes = to_memory m.cached_inodes in
      let before = view_focus S m pre c post v.held f in
      let fit =
        (All-split Fits m.cached_inodes (stored A a post)
          (All-split Fits (stored A a pre) (m.cached_inodes ++ stored A a post)
            (subst (λ xs. All Fits xs) before v.fit)).1).0 in
      let starts = Starts-split 0 pre (c ∷ post) (subst (λ cs. Starts 0 cs) f.split v.starts) in
      let short : length bytes ≤ chunk_size * inode_size =
        omega (arith, length-to_memory m.cached_inodes fit, f.counted, starts.1.2) in
      let held = held_at S a m.chunks pre c post f.split v.held in
      let others = S.write-Unaltered a (handles pre) c.handle (handles post) bytes held short in
      let after = A.write a c.handle bytes 0 in
      record {
        chunks_kept = refl;
        held =
            subst (λ hs. S.Held after hs) (sym (ap handles f.split ∙ handles_append pre (c ∷ post)))
              (S.write-Held a (handles pre) c.handle (handles post) bytes held short);
        inodes =
            stored_focus after m.chunks pre c post f.split
            ∙ ap₂ ◌++◌ (stored-cong A a after 0 pre starts.0 others.0) (
                ap₂ ◌++◌ (disk_written a c m.cached_inodes fit f.counted)
                  (stored-cong A a after (0 + total pre + c.num_inodes) post starts.1.3 others.1))
            ∙ sym before;
        room = S.write-HasRoom a c.handle bytes;
      }

  pub flush_lem : (m : HierarchyInodeManager A) → IsValid S m → Flushed m (flush_cache A m)
  unfolding view
  flush_lem m v = elim v.cache [
    | inl empty ↦
        subst (λ m'. Flushed m m') (sym (flush-none m empty))
          (unflushed m v.held (
            sym (
              ap (λ h. contents A m.allocation_manager h m.cached_inodes m.chunks) empty
              ∙ contents-none A m.allocation_manager m.cached_inodes m.chunks)))
    | inr (pre, c, post, f) ↦ elim (Bool-cases m.cache_dirty) [
      | inl dirty ↦
          subst (λ m'. Flushed m m') (sym (flush-dirty m c.handle f.cached dirty))
            (flush_write m pre c post v f)
      | inr clean ↦
          subst (λ m'. Flushed m m') (sym (flush-clean m clean))
            (unflushed m v.held (
              stored_focus m.allocation_manager m.chunks pre c post f.split
              ∙ ap
                  (λ t.
                    stored A m.allocation_manager pre ++ (t ++ stored A m.allocation_manager post))
                  (f.clean clean)
              ∙ sym (view_focus S m pre c post v.held f)))
    ]
  ]

-- A chunk is found at one place only.
pub split_unique :
    (pre post pre' post' : List InodeChunk) (c c' : InodeChunk)
    → pre' ++ c' ∷ post' ≡ pre ++ c ∷ post
    → c'.handle ≡ c.handle
    → All (λ g. g ≢ c.handle) (handles pre)
    → All (λ g. g ≢ c'.handle) (handles pre')
    → (pre' ≡ pre) × (c' ≡ c) × (post' ≡ post)
split_unique [] post [] post' c c' e h v v' = (refl, cc, cc)
split_unique (b ∷ pre) post [] post' c c' e h v v' =
    let same : c' ≡ b = cc in absurd (v.0 (ap (λ (x : InodeChunk). x.handle) (sym same) ∙ h))
split_unique [] post (b' ∷ pre') post' c c' e h v v' =
    let same : b' ≡ c = cc in absurd (v'.0 (ap (λ (x : InodeChunk). x.handle) same ∙ sym h))
split_unique (b ∷ pre) post (b' ∷ pre') post' c c' e h v v' =
    let first : b' ≡ b = cc in
    let others : pre' ++ c' ∷ post' ≡ pre ++ c ∷ post = cc in
    let rest = split_unique pre post pre' post' c c' others h v.1 v'.1 in
    (ap₂ (◌∷◌) first rest.0, rest.1, rest.2)

module _ {A : AllocationManager} (S : Separation A (chunk_size * inode_size)) where
  -- The chunk is cached, and the inodes are those of `m`.
  pub record Loaded (m m' : HierarchyInodeManager A) (pre : List InodeChunk) (c : InodeChunk)
      (post : List InodeChunk) : Type 0 where
    pub focus : Focused m' pre c post
    pub chunks_kept : m'.chunks ≡ m.chunks
    pub held : S.Held m'.allocation_manager (handles m.chunks)
    pub inodes :
        stored A m'.allocation_manager pre
          ++ (m'.cached_inodes ++ stored A m'.allocation_manager post)
        ≡ view A m
    pub room : S.HasRoom m.allocation_manager → S.HasRoom m'.allocation_manager

  fetch_lem :
      (m : HierarchyInodeManager A) (pre : List InodeChunk) (c : InodeChunk)
      (post : List InodeChunk)
      → IsValid S m
      → m.chunks ≡ pre ++ c ∷ post
      → Loaded m (fetch_chunk A m c) pre c post
  unfolding fetch_chunk disk
  fetch_lem m pre c post v e =
      let flushed = flush_lem S m v in
      record {
        focus = record {
          split = flushed.chunks_kept ∙ e;
          cached = refl;
          counted = length-disk A (flush_cache A m).allocation_manager c;
          clean = λ d. refl;
        };
        chunks_kept = flushed.chunks_kept;
        held = flushed.held;
        inodes =
            sym (stored_focus S (flush_cache A m).allocation_manager m.chunks pre c post e)
            ∙ flushed.inodes;
        room = flushed.room;
      }

  already-Loaded :
      (m : HierarchyInodeManager A) (pre : List InodeChunk) (c : InodeChunk)
      (post : List InodeChunk)
      → IsValid S m
      → m.chunks ≡ pre ++ c ∷ post
      → m.cache_handle ≡ some c.handle
      → Loaded m m pre c post
  already-Loaded m pre c post v e cached = elim v.cache [
    | inl empty ↦ absurd (cc)
    | inr (pre', c', post', f) ↦
        let h : c'.handle ≡ c.handle = cc (f.cached, cached) in
        let at =
          S.distinct m.allocation_manager (handles pre) c.handle (handles post)
            (held_at S m.allocation_manager m.chunks pre c post e v.held) in
        let at' =
          S.distinct m.allocation_manager (handles pre') c'.handle (handles post')
            (held_at S m.allocation_manager m.chunks pre' c' post' f.split v.held) in
        let same = split_unique pre post pre' post' c c' (sym f.split ∙ e) h at.0 at'.0 in
        let here : Focused m pre c post = record {
          split = e;
          cached = cached;
          counted = f.counted ∙ ap (λ (x : InodeChunk). x.num_inodes) same.1;
          clean = λ d. ap (disk A m.allocation_manager) (sym same.1) ∙ f.clean d;
        } in
        record {
          focus = here;
          chunks_kept = refl;
          held = v.held;
          inodes = sym (view_focus S m pre c post v.held here);
          room = λ r. r;
        }
  ]

  -- load_chunk caches the chunk and keeps all inodes.
  pub load_lem :
      (m : HierarchyInodeManager A) (pre : List InodeChunk) (c : InodeChunk)
      (post : List InodeChunk)
      → IsValid S m
      → m.chunks ≡ pre ++ c ∷ post
      → Loaded m (load_chunk A m c) pre c post
  unfolding load_chunk
  load_lem m pre c post v e = elim (Option-cases m.cache_handle) [
    | inl empty ↦
        let fetched : load_chunk A m c ≡ fetch_chunk A m c = ground (arith, empty) in
        subst (λ m'. Loaded m m' pre c post) (sym fetched) (fetch_lem m pre c post v e)
    | inr (h, cached) ↦ elim (Bool-cases (h == c.handle)) [
      | inl same ↦
          let kept : load_chunk A m c ≡ m = ground (arith, cached, same) in
          subst (λ m'. Loaded m m' pre c post) (sym kept)
            (already-Loaded m pre c post v e
              (cached ∙ ap (λ (x : ℕ). some x) ((==_iff h c.handle).0 same)))
      | inr other ↦
          let fetched : load_chunk A m c ≡ fetch_chunk A m c = ground (arith, cached, other) in
          subst (λ m'. Loaded m m' pre c post) (sym fetched) (fetch_lem m pre c post v e)
    ]
  ]
