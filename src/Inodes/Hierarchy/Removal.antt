-- ===== src/Inodes/Hierarchy/Removal.antt =====
-- remove_inode (src/fsm/inode/hierarchy_inode.cpp) against removal from a sequence.
use succinct_filesystem.Base.{
  ℕ, zero, suc, ◌+◌, ◌-◌, ◌*◌, ◌≤◌, ◌<◌, ◌≡◌, inl, inr, refl, ap, ap₂, sym, ◌∙◌, subst, List, [],
  ◌∷◌, ◌++◌, none, some, arith, Bool-cases, ==_iff, ◌==◌,
}
use succinct_filesystem.Base.Seq.{length, get_or, remove_at, take, drop}
use succinct_filesystem.Base.Bytes.{take-append, drop-append}
use succinct_filesystem.Base.Splice.{get_or-middle, remove_at-middle}
use succinct_filesystem.Allocation.{AllocationManager}
use succinct_filesystem.Allocation.Apart.{Separation, Unaltered}
use succinct_filesystem.Serial.Format.{All}
use succinct_filesystem.Inodes.{Inode}
use succinct_filesystem.Inodes.Hierarchy.{
  InodeChunk, HierarchyInodeManager, chunk_size, no_chunk, find_chunk, remove_from, remove_inode,
  drop_chunk, erase_cached, shift_starts_down,
}
use succinct_filesystem.Inodes.Hierarchy.Image.{inode_size, Fits}
use succinct_filesystem.Inodes.Hierarchy.View.{
  handles, total, Starts, Starts-split, Starts-join, Starts-shift_starts_down, view, stored,
  contents, contents-none, stored_append, stored-cong, stored-shift_starts_down, handles_append,
  handles-shift_starts_down,
}
use succinct_filesystem.Inodes.Hierarchy.Load.{IsValid, find_chunk-none, focus-IsValid}
use succinct_filesystem.Inodes.Hierarchy.Get.{length-view, find_lem}
use succinct_filesystem.Inodes.Hierarchy.Cached.{Opened, erase_cached_lem, behind, shrunk-Starts}

All-remove_at : (xs : List Inode) (i : ℕ) → All Fits xs → All Fits (remove_at xs i)
All-remove_at [] i f = tt
All-remove_at (x ∷ xs) zero f = f.1
All-remove_at (x ∷ xs) (suc i) f = (f.0, All-remove_at xs i f.1)

no_inodes : (xs : List Inode) → length xs ≡ 0 → xs ≡ []
no_inodes [] h = refl
no_inodes (x ∷ xs) h = absurd (omega (arith, h))

module _ {A : AllocationManager} (S : Separation A (chunk_size * inode_size)) where
  freed-Unaltered :
      (a : A.Carrier) (g size : ℕ) (hs : List ℕ)
      → Unaltered A (chunk_size * inode_size) a (A.free a g size) hs
  freed-Unaltered a g size [] = tt
  freed-Unaltered a g size (h ∷ hs) =
      (λ n le. S.read-free a g h n size, freed-Unaltered a g size hs)

  drop_chunk_lem :
      (m m1 : HierarchyInodeManager A) (pre : List InodeChunk) (c : InodeChunk)
      (post : List InodeChunk) (inodes : List Inode)
      → c.num_inodes ≡ 1
      → Starts 0 (pre ++ c ∷ post)
      → Opened S m m1 pre (record c { num_inodes = c.num_inodes - 1 }) post inodes
      → All Fits inodes
      → IsValid S (drop_chunk A m1 (length pre) c)
        × (view A (drop_chunk A m1 (length pre) c) ≡ inodes)
  unfolding drop_chunk view
  drop_chunk_lem m m1 pre c post inodes last starts o fit =
      let a = m1.allocation_manager in
      let a' = A.free a c.handle (c.num_inodes * inode_size) in
      let c' : InodeChunk = record c { num_inodes = c.num_inodes - 1 } in
      let parts = Starts-split 0 pre (c ∷ post) starts in
      let without : remove_at m1.chunks (length pre) ≡ pre ++ post =
        ap (λ cs. remove_at cs (length pre)) o.focus.split ∙ remove_at-middle pre c' post in
      let chunks : take (length pre) (remove_at m1.chunks (length pre))
            ++ shift_starts_down (drop (length pre) (remove_at m1.chunks (length pre)))
          ≡ pre ++ shift_starts_down post =
        ap (λ cs. take (length pre) cs ++ shift_starts_down (drop (length pre) cs)) without
        ∙ ap₂ (λ xs ys. xs ++ shift_starts_down ys) (take-append (length pre) pre post refl)
            (drop-append (length pre) pre post refl) in
      let empty : m1.cached_inodes ≡ [] =
        no_inodes m1.cached_inodes (omega (arith, o.focus.counted, last)) in
      let seen : contents A a' none [] (pre ++ shift_starts_down post) ≡ inodes =
        contents-none A a' [] (pre ++ shift_starts_down post)
        ∙ stored_append A a' pre (shift_starts_down post)
        ∙ ap₂ ◌++◌
            (stored-cong A a a' 0 pre parts.0
              (freed-Unaltered a c.handle (c.num_inodes * inode_size) (handles pre)))
            (stored-shift_starts_down A a' post
              ∙ stored-cong A a a' (0 + total pre + c.num_inodes) post parts.1.3
                  (freed-Unaltered a c.handle (c.num_inodes * inode_size) (handles post))
              ∙ ap (λ xs. xs ++ stored A a post) (sym empty))
        ∙ o.stands_for in
      let same = ap (contents A a' none []) chunks ∙ seen in
      (
        record {
          starts =
              subst (λ cs. Starts 0 cs) (sym chunks)
                (Starts-join 0 (0 + total pre) pre (shift_starts_down post) refl parts.0 (
                  Starts-shift_starts_down (0 + total pre + c.num_inodes) (0 + total pre) post
                    (omega (arith, last)) parts.1.3));
          held =
              subst (λ hs. S.Held a' hs)
                (ap (λ t. handles pre ++ t) (sym (handles-shift_starts_down post))
                  ∙ sym (handles_append pre (shift_starts_down post))
                  ∙ ap handles (sym chunks))
                (S.free-Held a (handles pre) c.handle (handles post) (c.num_inodes * inode_size)
                  (subst (λ hs. S.Held a hs) (handles_append pre (c' ∷ post)) o.held)
                  (omega (arith, last)));
          cache = inl refl;
          fit = subst (λ xs. All Fits xs) (sym same) fit;
        },
        same,
      )

  remove_from_lem :
      (m : HierarchyInodeManager A) (pre : List InodeChunk) (c : InodeChunk)
      (post : List InodeChunk) (inode : ℕ)
      → IsValid S m
      → m.chunks ≡ pre ++ c ∷ post
      → c.start_inode ≤ inode
      → inode < c.start_inode + c.num_inodes
      → IsValid S (remove_from A m (length pre) c inode)
        × (view A (remove_from A m (length pre) c inode) ≡ remove_at (view A m) inode)
  unfolding remove_from
  remove_from_lem m pre c post inode v e from to =
      let inodes = remove_at (view A m) inode in
      let o = erase_cached_lem S m pre c post inode v e from to in
      let a = (erase_cached A m (length pre) c inode).allocation_manager in
      let c' : InodeChunk = record c { num_inodes = c.num_inodes - 1 } in
      let fit = All-remove_at (view A m) inode v.fit in
      let starts = subst (λ cs. Starts 0 cs) e v.starts in
      let filled = (Starts-split 0 pre (c ∷ post) starts).1.1 in
      elim (Bool-cases (c.num_inodes - 1 == 0)) [
        | inl last ↦
            let one : c.num_inodes ≡ 1 =
              omega (arith, filled, (==_iff (c.num_inodes - 1) 0).0 last) in
            rw last (
              drop_chunk_lem m (erase_cached A m (length pre) c inode) pre c post inodes one starts
                o fit)
        | inr more ↦
            let many : 1 < c.num_inodes = ground (arith, filled, more) in
            let chunks =
              ap (λ cs. take (length pre + 1) cs ++ shift_starts_down (drop (length pre + 1) cs))
                o.focus.split
              ∙ behind shift_starts_down pre c' post in
            let regroup =
              handles_append pre (c' ∷ post)
              ∙ ap (λ t. handles pre ++ c.handle ∷ t) (sym (handles-shift_starts_down post))
              ∙ sym (handles_append pre (c' ∷ shift_starts_down post))
              ∙ ap handles (sym chunks) in
            rw more (
              focus-IsValid S _ pre c' (shift_starts_down post) inodes
                (subst (λ cs. Starts 0 cs) (sym chunks) (shrunk-Starts pre c post starts many))
                (subst (λ hs. S.Held a hs) regroup o.held)
                (record {
                  split = chunks;
                  cached = o.focus.cached;
                  counted = o.focus.counted;
                  clean = o.focus.clean;
                })
                (ap
                    (λ t.
                      stored A a pre
                      ++ ((erase_cached A m (length pre) c inode).cached_inodes ++ t))
                    (stored-shift_starts_down A a post)
                  ∙ o.stands_for)
                fit)
      ]

  remove_out :
      (m : HierarchyInodeManager A) (inode : ℕ)
      → IsValid S m
      → length (view A m) ≤ inode
      → remove_inode A m inode ≡ m
  unfolding remove_inode
  remove_out m inode v h =
      let missing =
        find_chunk-none 0 0 m.chunks inode v.starts (omega (arith, h, length-view S m v)) in
      rw (missing, remove_inode) refl

  -- A removal of an inode in range, be it the last of its chunk or not, takes that inode out of the
  -- sequence and changes no other, and the manager stays well formed; a removal out of range does
  -- nothing.
  pub remove_inode_lem :
      (m : HierarchyInodeManager A) (inode : ℕ)
      → IsValid S m
      → (inode < length (view A m)
          → IsValid S (remove_inode A m inode)
            × (view A (remove_inode A m inode) ≡ remove_at (view A m) inode))
        × (length (view A m) ≤ inode → remove_inode A m inode ≡ m)
  unfolding remove_inode
  remove_inode_lem m inode v = (
    λ h.
        let f = find_lem S m inode v h in
        let at : get_or m.chunks (length f.pre) no_chunk ≡ f.chunk =
          ap (λ cs. get_or cs (length f.pre) no_chunk) f.split
          ∙ get_or-middle f.pre f.chunk f.post no_chunk in
        let index : find_chunk 0 m.chunks inode ≡ some (length f.pre) =
          f.index ∙ ap (λ (n : ℕ). some n) {x = 0 + length f.pre} (omega arith) in
        let r : remove_inode A m inode ≡ remove_from A m (length f.pre) f.chunk inode =
          rw (index, remove_inode) (ap (λ c. remove_from A m (length f.pre) c inode) at) in
        let done = remove_from_lem m f.pre f.chunk f.post inode v f.split f.from f.to in
        (subst (IsValid S) (sym r) done.0, ap (view A) r ∙ done.1),
    λ h. remove_out m inode v h,
  )
