-- ===== src/FileSystem/Nodes.antt =====
-- Adding nodes: the inodes stay in step with the tree (src/fsm/file_system_manager.cpp, add_node).
use succinct_filesystem.Base.{
  ℕ, zero, suc, ◌≤◌, ◌≡◌, ◌⊎◌, inl, inr, refl, ap, ◌∙◌, Bool, true, false, List, [], ◌∷◌, some,
  arith, Bool-cases, ◌==◌,
}
use succinct_filesystem.Base.Seq.{
  length, get_elem?, set, insert_at, length-set, length-insert_at, get_elem?-insert_at_self,
}
use succinct_filesystem.BitVector.{BitVector}
use succinct_filesystem.NameSequence.{NameSequence, Name}
use succinct_filesystem.Allocation.{AllocationManager}
use succinct_filesystem.Flouds
use succinct_filesystem.Flouds.{Flouds}
use succinct_filesystem.Flouds.Shape.{block_end, block_end-le, folder_index}
use succinct_filesystem.Flouds.Refine.{Holds}
use succinct_filesystem.Flouds.Insert.{new_kind, insert_full, insert_empty}
use succinct_filesystem.Flouds.Adopt.{adopted_full, adopted_empty}
use succinct_filesystem.Inodes.{Inode, blank, set_inode, insert_inode}
use succinct_filesystem.FileSystem
use succinct_filesystem.FileSystem.{FileSystem}

set-insert_at {ℓ} :
    {A : Type ℓ} (xs : List A) (i : ℕ) (u v : A)
    → i ≤ length xs
    → set (insert_at xs i u) i v ≡ insert_at xs i v
set-insert_at [] zero u v h = refl
set-insert_at [] (suc i) u v h = absurd (omega arith)
set-insert_at (x ∷ xs) zero u v h = refl
set-insert_at (x ∷ xs) (suc i) u v h = ap (λ t. x ∷ t) (set-insert_at xs i u v (omega arith))

-- The inode of a new node.
abbrev pub new_inode : ℕ → ℕ → Inode
new_inode now mode = record blank {
  mode = mode;
  access_time = now;
  creation_time = now;
  modification_time = now;
}

module _ (B : BitVector) (N : NameSequence) (A : AllocationManager) where
  -- The tree is well formed, and every node has its inode.
  pub record IsAligned (fs : FileSystem B N A) (bits : List Bool) (kinds : List ℕ)
      (labels : List Name) : Type 0 where
    pub tree : Holds B N fs.flouds bits kinds labels
    pub same : length fs.inode_manager.inodes ≡ length bits

  pub flush-IsAligned :
      (fs : FileSystem B N A) (bits : List Bool) (kinds : List ℕ) (labels : List Name)
      → IsAligned fs bits kinds labels
      → IsAligned (FileSystem.flush_delayed_write B N A fs) bits kinds labels
  unfolding FileSystem.flush_delayed_write FileSystem.write_through FileSystem.place_file set_inode
  flush-IsAligned fs bits kinds labels v = elim (Bool-cases (fs.delayed_write.size == 0)) [
    | inl empty ↦ rw empty v
    | inr full ↦ rw full (record {
      tree = v.tree;
      same = length-set fs.inode_manager.inodes fs.delayed_write.inode _ ∙ v.same;
    })
  ]

  -- The result of add_node at `n`: the tree has the new node there, with its type and name, under the
  -- folder `p`, the inodes have a new one there, and no other inode has changed since the flush.
  pub record Added (now : ℕ) (fs : FileSystem B N A) (p : ℕ) (name : Name) (is_folder : Bool)
      (mode : ℕ) (labels : List Name) (fs' : FileSystem B N A) (n : ℕ) : Type 0 where
    pub bits' : List Bool
    pub kinds' : List ℕ
    pub aligned : IsAligned fs' bits' kinds' (insert_at labels n name)
    pub kind : get_elem? kinds' n ≡ some (new_kind is_folder)
    pub adopted : Flouds.parent B N fs'.flouds n ≡ some p
    pub inodes :
        fs'.inode_manager.inodes
        ≡ insert_at
            (FileSystem.flush_delayed_write B N A fs).inode_manager.inodes
            n
            (new_inode now mode)

  module _ (now : ℕ) (fs : FileSystem B N A) (bits : List Bool) (kinds : List ℕ)
      (labels : List Name) (v : IsAligned fs bits kinds labels) (p : ℕ) (name : Name)
      (is_folder : Bool) (mode : ℕ) where
    abbrev flushed : FileSystem B N A
    flushed = FileSystem.flush_delayed_write B N A fs

    place_new :
        (f' : Flouds B N) (n : ℕ) (new_block : Bool) (others : List ℕ)
        → Flouds.insert B N flushed.flouds p name is_folder ≡ some (f', n)
        → n ≤ length bits
        → length others ≡ length bits
        → Holds B N f'
            (insert_at bits n new_block)
            (insert_at others n (new_kind is_folder))
            (insert_at labels n name)
        → Flouds.parent B N f' n ≡ some p
        → (fs' : FileSystem B N A) × (m : ℕ) × (FileSystem.add_node B N A now fs p name is_folder
              mode
            ≡ (fs', some m))
          × Added now fs p name is_folder mode labels fs' m
    unfolding FileSystem.add_node set_inode insert_inode
    place_new f' n new_block others done le same holds adopted =
        let w = flush-IsAligned fs bits kinds labels v in
        let inodes = flushed.inode_manager.inodes in
        (
          record flushed {
            flouds = f';
            inode_manager = set_inode (insert_inode flushed.inode_manager n) n (new_inode now mode);
          },
          n,
          rw (done, FileSystem.add_node) refl,
          record {
            bits' = insert_at bits n new_block;
            kinds' = insert_at others n (new_kind is_folder);
            aligned = record {
              tree = holds;
              same = omega (
                arith,
                length-set (insert_at inodes n blank) n (new_inode now mode),
                length-insert_at inodes n blank,
                length-insert_at bits n new_block,
                w.same,
              );
            };
            kind = get_elem?-insert_at_self others n (new_kind is_folder) (omega (arith, le, same));
            adopted = adopted;
            inodes = set-insert_at inodes n blank (new_inode now mode) (omega (arith, le, w.same));
          },
        )

    -- In a file system in which the tree is well formed and every node has its inode, adding a node
    -- under any folder, empty or not, succeeds: tree and inodes are in step again, with the new node
    -- at the position returned, of the type and the name that were asked for and a child of that
    -- folder, and its inode there; the other inodes are those of before, after the flush.
    pub add_node_lem :
        (get_elem? kinds p ≡ some 1) ⊎ (get_elem? kinds p ≡ some 2)
        → (fs' : FileSystem B N A) × (n : ℕ) × (FileSystem.add_node B N A now fs p name is_folder
              mode
            ≡ (fs', some n))
          × Added now fs p name is_folder mode labels fs' n
    add_node_lem folder =
        let w = flush-IsAligned fs bits kinds labels v in
        let count = w.tree.tree.same_length in
        elim folder [
          | inl full ↦
              let e = block_end bits (suc (folder_index kinds p)) in
              let (f', done, holds) =
                insert_full B N bits kinds labels w.tree p name is_folder full in
              place_new f' e false kinds done (block_end-le bits (suc (folder_index kinds p))) count
                holds
                (adopted_full B N bits kinds (insert_at labels e name) w.tree.tree p
                  (new_kind is_folder) full holds)
          | inr empty ↦
              let k = folder_index (set kinds p 1) p in
              let (f', done, holds) =
                insert_empty B N bits kinds labels w.tree p name is_folder empty in
              place_new f' (block_end bits k) true (set kinds p 1) done (block_end-le bits k)
                (length-set kinds p 1 ∙ count) holds
                (adopted_empty B N bits kinds (insert_at labels (block_end bits k) name) w.tree.tree
                  p (new_kind is_folder) empty holds)
        ]
