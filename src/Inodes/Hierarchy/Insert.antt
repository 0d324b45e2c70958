-- ===== src/Inodes/Hierarchy/Insert.antt =====
-- insert_inode (src/fsm/inode/hierarchy_inode.cpp) on every branch: into an empty manager, into a
-- chunk that has room, and into one that is split.
use succinct_filesystem.Base.{
  ℕ, zero, suc, ◌+◌, ◌-◌, ◌*◌, ◌≤◌, ◌<◌, ◌≡◌, inl, inr, refl, ap, ap₂, sym, ◌∙◌, subst, List, [],
  ◌∷◌, ◌++◌, ltb, arith, Bool-cases, ltb→lt, ltb→le,
}
use native.Mathlib.Decide.{dec_lt}
use mathlib.Core.List.{append_assoc, append-nil}
use succinct_filesystem.Base.Seq.{
  length, set, insert_at, length-append, insert_at-zero, length-take, length-drop,
}
use succinct_filesystem.Base.Bytes.{take-drop}
use succinct_filesystem.Base.Splice.{set-middle, insert_at-append}
use succinct_filesystem.Allocation.{AllocationManager}
use succinct_filesystem.Allocation.Apart.{Separation}
use succinct_filesystem.Serial.Format.{All, All-split}
use succinct_filesystem.Inodes.{Inode}
use succinct_filesystem.Inodes.Hierarchy.{
  InodeChunk, HierarchyInodeManager, chunk_size, split_chunk, insertion_chunk,
}
use succinct_filesystem.Inodes.Hierarchy.Image.{inode_size, Fits}
use succinct_filesystem.Inodes.Hierarchy.View.{
  handles, total, Starts, Starts-join, view, stored, stored_append, handles_append, total_append,
  disk, Starts-cong,
}
use succinct_filesystem.Inodes.Hierarchy.Load.{Focused, IsValid, focus-IsValid, find_chunk-none}
use succinct_filesystem.Inodes.Hierarchy.Get.{
  Points, focus-Points, length-view, find_lem, start_total,
}
use succinct_filesystem.Inodes.Hierarchy.Cached.{Opened}
use succinct_filesystem.Inodes.Hierarchy.Split.{
  stored_lem, left_data, right_data, left_chunk, new_chunk, final,
}

pub All-insert_at :
    (xs : List Inode) (i : ℕ) (v : Inode) → All Fits xs → Fits v → All Fits (insert_at xs i v)
All-insert_at [] i v f g = (g, tt)
All-insert_at (x ∷ xs) zero v f g = (g, f)
All-insert_at (x ∷ xs) (suc i) v f g = (f.0, All-insert_at xs i v f.1 g)

-- The new chunk stands behind the one that is split.
chunks_split :
    (pre : List InodeChunk) (c left new : InodeChunk) (post : List InodeChunk)
    → insert_at (set (pre ++ c ∷ post) (length pre) left) (length pre + 1) new
      ≡ pre ++ left ∷ new ∷ post
chunks_split pre c left new post =
    ap (λ cs. insert_at cs (length pre + 1) new) (set-middle pre c post left)
    ∙ insert_at-append pre (left ∷ post) 1 new
    ∙ ap (λ t. pre ++ left ∷ t) (insert_at-zero post new)

last_split :
    (cs : List InodeChunk)
    → 0 < length cs
    → (pre : List InodeChunk) × (c : InodeChunk) × (cs ≡ pre ++ c ∷ [])
last_split [] h = absurd (omega arith)
last_split (c ∷ []) h = ([], c, refl)
last_split (c ∷ d ∷ cs) h =
    let rest = last_split (d ∷ cs) (omega arith) in (c ∷ rest.0, rest.1, ap (λ t. c ∷ t) rest.2)

module _ {A : AllocationManager} (S : Separation A (chunk_size * inode_size)) where
  -- What insert_inode promises for the position `i`.
  pub record Inserted (m : HierarchyInodeManager A) (i : ℕ) (inodes : List Inode)
      (r : HierarchyInodeManager A × ℕ) : Type 0 where
    pub valid : IsValid S r.0
    pub inserted : view A r.0 ≡ inodes
    pub points : Points r.0 r.1 i

  -- The inode at `p` of the cached chunk is the one that was inserted.
  pub Focused-Inserted :
      (m m' : HierarchyInodeManager A) (pre : List InodeChunk) (c : InodeChunk)
      (post : List InodeChunk) (p i : ℕ) (inodes : List Inode)
      → total pre + p ≡ i
      → Starts 0 (pre ++ c ∷ post)
      → S.Held m'.allocation_manager (handles (pre ++ c ∷ post))
      → Focused m' pre c post
      → stored A m'.allocation_manager pre
          ++ (m'.cached_inodes ++ stored A m'.allocation_manager post)
        ≡ inodes
      → All Fits inodes
      → p < c.num_inodes
      → Inserted m i inodes (m', p)
  Focused-Inserted m m' pre c post p i inodes place starts held f e fit inside =
      let a = m'.allocation_manager in
      let held' = subst (λ cs. S.Held a (handles cs)) (sym f.split) held in
      let v =
        focus-IsValid S m' pre c post inodes (subst (λ cs. Starts 0 cs) (sym f.split) starts) held'
          f e fit in
      record {
        valid = v.0;
        inserted = v.1;
        points = subst (λ j. Points m' p j) place (focus-Points S m' pre c post p held' f inside);
      }

  pub split_chunk_lem :
      (m m1 : HierarchyInodeManager A) (pre : List InodeChunk) (c : InodeChunk)
      (post : List InodeChunk) (p : ℕ) (inodes : List Inode)
      → c.num_inodes ≡ chunk_size
      → Opened S m m1 pre (record c { num_inodes = c.num_inodes + 1 }) post inodes
      → S.HasRoom m1.allocation_manager
      → Starts 0 pre
      → c.start_inode ≡ total pre
      → Starts (total pre + (chunk_size + 1)) post
      → All Fits inodes
      → p ≤ chunk_size
      → Inserted m (total pre + p) inodes (split_chunk A m1 (length pre) c p)
  unfolding split_chunk stored
  split_chunk_lem m m1 pre c post p inodes full o room starts_pre start starts_post fit inside =
      let a = m1.allocation_manager in
      let xs = m1.cached_inodes in
      let counted : length xs ≡ chunk_size + 1 = omega (arith, o.focus.counted, full) in
      let fits =
        (All-split Fits xs (stored A a post)
          (All-split Fits (stored A a pre) (xs ++ stored A a post)
            (subst (λ ys. All Fits ys) (sym o.stands_for) fit)).1).0 in
      let held0 =
        subst (λ hs. S.Held a hs)
          (handles_append pre (record c { num_inodes = c.num_inodes + 1 } ∷ post)) o.held in
      let s =
        stored_lem S a pre c post xs (total pre + (chunk_size + 1)) held0 room counted fits
          starts_pre starts_post in
      let a' = final S a pre c post xs in
      let left = left_chunk S a pre c post xs in
      let new = new_chunk S a pre c post xs in
      let l = left_data S a pre c post xs in
      let r = right_data S a pre c post xs in
      let right_length : length r ≡ 1 = omega (arith, length-drop chunk_size xs, counted) in
      let split =
        ap (λ cs. insert_at (set cs (length pre) left) (length pre + 1) new) o.focus.split
        ∙ chunks_split pre (record c { num_inodes = c.num_inodes + 1 }) left new post in
      let starts_new : Starts (total pre + chunk_size) (new ∷ post) = (
        omega (arith, start),
        omega (arith, right_length),
        omega (arith, right_length),
        Starts-cong (total pre + (chunk_size + 1)) (total pre + chunk_size + length r) post
            (omega (arith, right_length)) starts_post,
      ) in
      let starts : Starts 0 (pre ++ left ∷ new ∷ post) =
        Starts-join 0 (total pre) pre (left ∷ new ∷ post) (omega arith) starts_pre
          (start, omega arith, omega arith, starts_new) in
      let held : S.Held a' (handles (pre ++ left ∷ new ∷ post)) =
        subst (λ hs. S.Held a' hs) (sym (handles_append pre (left ∷ new ∷ post))) s.held in
      let all : stored A a pre ++ (l ++ (r ++ stored A a post)) ≡ inodes =
        ap (λ t. stored A a pre ++ t)
          (sym (append_assoc l r (stored A a post))
            ∙ ap (λ t. t ++ stored A a post) (take-drop chunk_size xs))
        ∙ o.stands_for in
      let front = pre ++ left ∷ [] in
      let regroup : pre ++ left ∷ new ∷ post ≡ front ++ new ∷ post =
        sym (append_assoc pre (left ∷ []) (new ∷ post)) in
      let front_stored : stored A a' front ≡ stored A a pre ++ l =
        stored_append A a' pre (left ∷ [])
        ∙ ap₂ ◌++◌ s.before (append-nil (disk A a' left) ∙ s.left) in
      elim (Bool-cases (ltb p chunk_size)) [
        | inl here ↦ rw here (
            Focused-Inserted m _ pre left (new ∷ post) p (total pre + p) inodes refl starts held
              (record {
                split = split;
                cached = o.focus.cached;
                counted = omega (arith, length-take chunk_size xs, counted);
                clean = λ d. s.left;
              })
              (ap₂ ◌++◌ s.before (ap (λ t. l ++ t) (ap₂ ◌++◌ s.right s.after)) ∙ all) fit
              (ltb→lt p chunk_size here))
        | inr there ↦
            let place : total front + (p - chunk_size) ≡ total pre + p =
              omega (arith, total_append pre (left ∷ []), ltb→le p chunk_size there) in
            rw there (
              Focused-Inserted m _ front new post (p - chunk_size) (total pre + p) inodes place
                (subst (λ cs. Starts 0 cs) regroup starts)
                (subst (λ cs. S.Held a' (handles cs)) regroup held)
                (record {
                  split = split ∙ regroup;
                  cached = refl;
                  counted = refl;
                  clean = λ d. s.right;
                })
                (ap₂ ◌++◌ front_stored (ap (λ t. r ++ t) s.after)
                  ∙ append_assoc (stored A a pre) l (r ++ stored A a post)
                  ∙ all)
                fit (omega (arith, right_length, inside)))
      ]

  -- Where an inode is inserted.
  pub record Target (m : HierarchyInodeManager A) (inode : ℕ) : Type 0 where
    pub pre : List InodeChunk
    pub chunk : InodeChunk
    pub post : List InodeChunk
    pub split : m.chunks ≡ pre ++ chunk ∷ post
    pub index : insertion_chunk m.chunks inode ≡ length pre
    pub from : chunk.start_inode ≤ inode
    pub to : inode ≤ chunk.start_inode + chunk.num_inodes

  pub target_lem :
      (m : HierarchyInodeManager A) (inode : ℕ)
      → IsValid S m
      → 0 < length m.chunks
      → inode ≤ length (view A m)
      → Target m inode
  unfolding insertion_chunk
  target_lem m inode v some_chunk h = elim (dec_lt inode (length (view A m))) [
    | yes inside ↦
        let f = find_lem S m inode v inside in
        let index : insertion_chunk m.chunks inode ≡ 0 + length f.pre = ground (arith, f.index) in
        record {
          pre = f.pre;
          chunk = f.chunk;
          post = f.post;
          split = f.split;
          index = omega (arith, index);
          from = f.from;
          to = omega (arith, f.to);
        }
    | no outside ↦
        let missing =
          find_chunk-none 0 0 m.chunks inode v.starts (omega (arith, outside, length-view S m v)) in
        let last = last_split m.chunks some_chunk in
        let start = start_total S m last.0 last.1 [] v last.2 in
        let end : total m.chunks ≡ total last.0 + last.1.num_inodes =
          ap total last.2
          ∙ total_append last.0 (last.1 ∷ [])
          ∙ ap (λ (n : ℕ). total last.0 + n) {x = last.1.num_inodes + 0} (omega arith) in
        let count : length m.chunks ≡ length last.0 + 1 =
          ap length last.2 ∙ length-append last.0 (last.1 ∷ []) in
        let index : insertion_chunk m.chunks inode ≡ length m.chunks - 1 =
          ground (arith, missing) in
        record {
          pre = last.0;
          chunk = last.1;
          post = [];
          split = last.2;
          index = omega (arith, index, count);
          from = omega (arith, start, end, outside, length-view S m v);
          to = omega (arith, start, end, h, length-view S m v);
        }
  ]
