-- ===== src/Inodes/Hierarchy/Cached.antt =====
-- The parts of insert_inode and remove_inode (src/fsm/inode/hierarchy_inode.cpp) that work on the
-- cached chunk.
use succinct_filesystem.Base.{
  ℕ, ◌+◌, ◌-◌, ◌*◌, ◌≤◌, ◌<◌, ◌≡◌, refl, ap, ap₂, sym, ◌∙◌, subst, List, [], ◌∷◌, ◌++◌, arith,
}
use mathlib.Core.List.{append_assoc}
use succinct_filesystem.Base.Seq.{
  length, set, take, drop, insert_at, remove_at, length-insert_at, length-remove_at,
}
use succinct_filesystem.Base.Splice.{
  set-middle, take-middle, drop-middle, insert_at-part, remove_at-part,
}
use succinct_filesystem.Allocation.{AllocationManager}
use succinct_filesystem.Allocation.Apart.{Separation}
use succinct_filesystem.Inodes.{Inode, blank}
use succinct_filesystem.Inodes.Hierarchy.{
  InodeChunk, HierarchyInodeManager, chunk_size, load_chunk, insert_cached, erase_cached,
  shift_starts_up, shift_starts_down,
}
use succinct_filesystem.Inodes.Hierarchy.Image.{inode_size}
use succinct_filesystem.Inodes.Hierarchy.View.{
  handles, total, Starts, Starts-split, Starts-join, Starts-shift_starts_up,
  Starts-shift_starts_down, view, stored, length-stored, handles_append, handles-shift_starts_up,
  stored-shift_starts_up,
}
use succinct_filesystem.Inodes.Hierarchy.Load.{Focused, IsValid}
use succinct_filesystem.Inodes.Hierarchy.Cache.{load_lem}
use succinct_filesystem.Inodes.Hierarchy.Get.{start_total}

-- A change of the chunk at an index, and one of those behind it.
pub behind :
    (f : List InodeChunk → List InodeChunk) (pre : List InodeChunk) (c : InodeChunk)
    (post : List InodeChunk)
    → take (length pre + 1) (pre ++ c ∷ post) ++ f (drop (length pre + 1) (pre ++ c ∷ post))
      ≡ pre ++ c ∷ f post
behind f pre c post =
    ap₂ (λ xs ys. xs ++ f ys) (take-middle pre c post) (drop-middle pre c post)
    ∙ append_assoc pre (c ∷ []) (f post)

pub grown-Starts :
    (pre : List InodeChunk) (c : InodeChunk) (post : List InodeChunk)
    → Starts 0 (pre ++ c ∷ post)
    → c.num_inodes + 1 ≤ chunk_size
    → Starts 0 (pre ++ record c { num_inodes = c.num_inodes + 1 } ∷ shift_starts_up post)
grown-Starts pre c post v h =
    let parts = Starts-split 0 pre (c ∷ post) v in
    Starts-join 0 (0 + total pre) pre
      (record c { num_inodes = c.num_inodes + 1 } ∷ shift_starts_up post) refl parts.0
      (
        parts.1.0,
        omega arith,
        h,
        Starts-shift_starts_up (0 + total pre + c.num_inodes) (0 + total pre + (c.num_inodes + 1))
            post (omega arith) parts.1.3,
      )

pub shrunk-Starts :
    (pre : List InodeChunk) (c : InodeChunk) (post : List InodeChunk)
    → Starts 0 (pre ++ c ∷ post)
    → 1 < c.num_inodes
    → Starts 0 (pre ++ record c { num_inodes = c.num_inodes - 1 } ∷ shift_starts_down post)
shrunk-Starts pre c post v h =
    let parts = Starts-split 0 pre (c ∷ post) v in
    Starts-join 0 (0 + total pre) pre
      (record c { num_inodes = c.num_inodes - 1 } ∷ shift_starts_down post) refl parts.0
      (
        parts.1.0,
        omega (arith, h),
        omega (arith, parts.1.2),
        Starts-shift_starts_down (0 + total pre + c.num_inodes) (0 + total pre + (c.num_inodes - 1))
            post (omega (arith, h)) parts.1.3,
      )

module _ {A : AllocationManager} (S : Separation A (chunk_size * inode_size)) where
  -- A chunk is cached, and with it the manager stands for `inodes`.
  pub record Opened (m m' : HierarchyInodeManager A) (pre : List InodeChunk) (c : InodeChunk)
      (post : List InodeChunk) (inodes : List Inode) : Type 0 where
    pub focus : Focused m' pre c post
    pub held : S.Held m'.allocation_manager (handles (pre ++ c ∷ post))
    pub stands_for :
        stored A m'.allocation_manager pre
          ++ (m'.cached_inodes ++ stored A m'.allocation_manager post)
        ≡ inodes
    pub room : S.HasRoom m.allocation_manager → S.HasRoom m'.allocation_manager

  pub insert_cached_lem :
      (m : HierarchyInodeManager A) (pre : List InodeChunk) (c : InodeChunk)
      (post : List InodeChunk) (inode : ℕ)
      → IsValid S m
      → m.chunks ≡ pre ++ c ∷ post
      → c.start_inode ≤ inode
      → inode ≤ c.start_inode + c.num_inodes
      → Opened m
          (insert_cached A m (length pre) c inode)
          pre
          (record c { num_inodes = c.num_inodes + 1 })
          (shift_starts_up post)
          (insert_at (view A m) inode blank)
  unfolding insert_cached stored
  insert_cached_lem m pre c post inode v e from to =
      let l = load_lem S m pre c post v e in
      let loaded = load_chunk A m c in
      let a = loaded.allocation_manager in
      let p = inode - c.start_inode in
      let c' : InodeChunk = record c { num_inodes = c.num_inodes + 1 } in
      let place : length (stored A a pre) + p ≡ inode =
        omega (arith, length-stored A a pre, start_total S m pre c post v e, from) in
      record {
        focus = record {
          split =
              ap (λ cs. take (length pre + 1) cs ++ shift_starts_up (drop (length pre + 1) cs))
                (ap (λ cs. set cs (length pre) c') l.focus.split ∙ set-middle pre c post c')
              ∙ behind shift_starts_up pre c' post;
          cached = l.focus.cached;
          counted = omega (arith, length-insert_at loaded.cached_inodes p blank, l.focus.counted);
          clean = λ d. absurd (cc d);
        };
        held =
            subst (λ hs. S.Held a hs)
              (ap handles e
                ∙ handles_append pre (c ∷ post)
                ∙ ap (λ t. handles pre ++ c.handle ∷ t) (sym (handles-shift_starts_up post))
                ∙ sym (handles_append pre (c' ∷ shift_starts_up post)))
              l.held;
        stands_for =
            ap (λ t. stored A a pre ++ (insert_at loaded.cached_inodes p blank ++ t))
              (stored-shift_starts_up A a post)
            ∙ sym (
                insert_at-part (stored A a pre) loaded.cached_inodes (stored A a post) p blank
                  (omega (arith, l.focus.counted, to)))
            ∙ ap₂ (λ xs i. insert_at xs i blank) l.inodes place;
        room = l.room;
      }

  pub erase_cached_lem :
      (m : HierarchyInodeManager A) (pre : List InodeChunk) (c : InodeChunk)
      (post : List InodeChunk) (inode : ℕ)
      → IsValid S m
      → m.chunks ≡ pre ++ c ∷ post
      → c.start_inode ≤ inode
      → inode < c.start_inode + c.num_inodes
      → Opened m
          (erase_cached A m (length pre) c inode)
          pre
          (record c { num_inodes = c.num_inodes - 1 })
          post
          (remove_at (view A m) inode)
  unfolding erase_cached stored
  erase_cached_lem m pre c post inode v e from to =
      let l = load_lem S m pre c post v e in
      let loaded = load_chunk A m c in
      let a = loaded.allocation_manager in
      let p = inode - c.start_inode in
      let c' : InodeChunk = record c { num_inodes = c.num_inodes - 1 } in
      let inside : p < length loaded.cached_inodes = omega (arith, l.focus.counted, from, to) in
      let place : length (stored A a pre) + p ≡ inode =
        omega (arith, length-stored A a pre, start_total S m pre c post v e, from) in
      record {
        focus = record {
          split = ap (λ cs. set cs (length pre) c') l.focus.split ∙ set-middle pre c post c';
          cached = l.focus.cached;
          counted = omega (arith, length-remove_at loaded.cached_inodes p inside, l.focus.counted);
          clean = λ d. absurd (cc d);
        };
        held =
            subst (λ hs. S.Held a hs)
              (ap handles e ∙ handles_append pre (c ∷ post) ∙ sym (handles_append pre (c' ∷ post)))
              l.held;
        stands_for =
            sym (remove_at-part (stored A a pre) loaded.cached_inodes (stored A a post) p inside)
            ∙ ap₂ remove_at l.inodes place;
        room = l.room;
      }
