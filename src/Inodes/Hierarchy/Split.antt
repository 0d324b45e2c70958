-- ===== src/Inodes/Hierarchy/Split.antt =====
-- The split of a chunk that has one inode too many (insert_inode of
-- src/fsm/inode/hierarchy_inode.cpp).
use succinct_filesystem.Base.{
  ℕ, ◌+◌, ◌*◌, ◌≤◌, ◌≡◌, refl, ap, sym, ◌∙◌, subst, List, [], ◌∷◌, ◌++◌, arith,
}
use mathlib.Core.List.{append_assoc}
use succinct_filesystem.Base.Seq.{length, take, drop, length-take, length-drop}
use succinct_filesystem.Base.Bytes.{take-drop}
use succinct_filesystem.Allocation.{AllocationManager}
use succinct_filesystem.Allocation.Apart.{Separation, Unaltered}
use succinct_filesystem.Serial.Format.{All, All-split}
use succinct_filesystem.Inodes.{Inode}
use succinct_filesystem.Inodes.Hierarchy.{InodeChunk, chunk_size}
use succinct_filesystem.Inodes.Hierarchy.Image.{
  inode_size, to_memory, from_memory, length-to_memory, Fits,
}
use succinct_filesystem.Inodes.Hierarchy.View.{handles, Starts, disk, stored, stored-cong}
use succinct_filesystem.Inodes.Hierarchy.Cache.{disk_written}

module _ {A : AllocationManager} (S : Separation A (chunk_size * inode_size)) (a : A.Carrier)
    (pre : List InodeChunk) (c : InodeChunk) (post : List InodeChunk) (xs : List Inode) where
  abbrev pub left_data : List Inode
  left_data = take chunk_size xs

  abbrev pub right_data : List Inode
  right_data = drop chunk_size xs

  abbrev pub left_chunk : InodeChunk
  left_chunk = record c { num_inodes = chunk_size }

  abbrev pub written : A.Carrier
  written = A.write a c.handle (to_memory left_data) 0

  abbrev pub given : A.Carrier × ℕ
  given = A.allocate written (chunk_size * inode_size)

  abbrev pub new_chunk : InodeChunk
  new_chunk = record {
    handle = given.1;
    start_inode = c.start_inode + chunk_size;
    num_inodes = length right_data;
  }

  abbrev pub final : A.Carrier
  final = A.write given.0 given.1 (to_memory right_data) 0

  pub disk-cong :
      (before after : A.Carrier) (b : InodeChunk)
      → b.num_inodes ≤ chunk_size
      → ((size : ℕ)
          → size ≤ chunk_size * inode_size
          → A.read after b.handle size 0 ≡ A.read before b.handle size 0)
      → disk A after b ≡ disk A before b
  unfolding disk
  disk-cong before after b h same =
      ap (from_memory b.num_inodes) (same (b.num_inodes * inode_size) (omega (arith, h)))

  -- What an allocation leaves in place.
  allocated-Unaltered :
      (before : A.Carrier) (hs : List ℕ)
      → Unaltered A
          (chunk_size * inode_size)
          before
          (A.allocate before (chunk_size * inode_size)).0
          hs
  allocated-Unaltered before [] = tt
  allocated-Unaltered before (h ∷ hs) =
      (λ size le. S.read-allocate before h size, allocated-Unaltered before hs)

  chain-Unaltered :
      (x y z : A.Carrier) (hs : List ℕ)
      → Unaltered A (chunk_size * inode_size) x y hs
      → Unaltered A (chunk_size * inode_size) y z hs
      → Unaltered A (chunk_size * inode_size) x z hs
  chain-Unaltered x y z [] u w = tt
  chain-Unaltered x y z (h ∷ hs) u w =
      (λ size le. w.0 size le ∙ u.0 size le, chain-Unaltered x y z hs u.1 w.1)

  -- What lies on the device after the split.
  pub record Stored : Type 0 where
    pub held : S.Held final (handles pre ++ c.handle ∷ given.1 ∷ handles post)
    pub before : stored A final pre ≡ stored A a pre
    pub left : disk A final left_chunk ≡ left_data
    pub right : disk A final new_chunk ≡ right_data
    pub after : stored A final post ≡ stored A a post

  pub stored_lem :
      (t : ℕ)
      → S.Held a (handles pre ++ c.handle ∷ handles post)
      → S.HasRoom a
      → length xs ≡ chunk_size + 1
      → All Fits xs
      → Starts 0 pre
      → Starts t post
      → Stored
  stored_lem t held room counted fit starts_pre starts_post =
      let n = chunk_size * inode_size in
      let fits =
        All-split Fits left_data right_data
          (subst (λ ys. All Fits ys) (sym (take-drop chunk_size xs)) fit) in
      let left_length : length left_data ≡ chunk_size =
        omega (arith, length-take chunk_size xs, counted) in
      let right_length : length right_data ≡ 1 =
        omega (arith, length-drop chunk_size xs, counted) in
      let left_short : length (to_memory left_data) ≤ n =
        omega (arith, length-to_memory left_data fits.0, left_length) in
      let right_short : length (to_memory right_data) ≤ n =
        omega (arith, length-to_memory right_data fits.1, right_length) in
      let bytes = to_memory left_data in
      let first = S.write-Unaltered a (handles pre) c.handle (handles post) bytes held left_short in
      let front = handles pre ++ c.handle ∷ [] in
      let held1 : S.Held written (front ++ handles post) =
        subst (λ hs. S.Held written hs)
          (sym (append_assoc (handles pre) (c.handle ∷ []) (handles post)))
          (S.write-Held a (handles pre) c.handle (handles post) bytes held left_short) in
      let held2 =
        S.allocate-Held written front (handles post) held1
          (S.write-HasRoom a c.handle bytes room) in
      let second =
        S.write-Unaltered given.0 front given.1 (handles post) (to_memory right_data) held2
          right_short in
      let second_front =
        All-split
          (λ handle.
            (size : ℕ) → size ≤ n → A.read final handle size 0 ≡ A.read given.0 handle size 0)
          (handles pre) (c.handle ∷ []) second.0 in
      let since = λ (hs : List ℕ) (u : Unaltered A n given.0 final hs).
        chain-Unaltered written given.0 final hs (allocated-Unaltered written hs) u in
      record {
        held =
            subst (λ hs. S.Held final hs)
              (append_assoc (handles pre) (c.handle ∷ []) (given.1 ∷ handles post))
              (S.write-Held given.0 front given.1 (handles post) (to_memory right_data) held2
                right_short);
        before = stored-cong A a final 0 pre starts_pre (
            chain-Unaltered a written final (handles pre) first.0
              (since (handles pre) second_front.0));
        left =
            disk-cong written final left_chunk (omega arith)
              (since (c.handle ∷ []) second_front.1).0
            ∙ disk_written S a left_chunk left_data fits.0 left_length;
        right = disk_written S given.0 new_chunk right_data fits.1 refl;
        after = stored-cong A a final t post starts_post (
            chain-Unaltered a written final (handles post) first.1 (since (handles post) second.1));
      }
