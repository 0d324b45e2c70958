-- ===== src/Fuse/Handlers/Nodes.antt =====
-- Adding nodes through the FUSE handlers (src/fuse.cpp, mkdir and create).
use Prim.Native.Nat.{bit_or}
use succinct_filesystem.Base.{
  ℕ, ◌≡◌, refl, ap, Bool, true, false, List, Option, some, ◌⊎◌, if◌then◌else◌,
}
use succinct_filesystem.Base.Seq.{get_elem?}
use succinct_filesystem.BitVector.{BitVector}
use succinct_filesystem.NameSequence.{NameSequence, Name}
use succinct_filesystem.Delta.{
  record_insert, stable_inode_to_flouds_inode, flouds_inode_to_stable_inode,
}
use succinct_filesystem.Flouds.{Flouds}
use succinct_filesystem.Inodes.{ArrayInodeManager}
use succinct_filesystem.Allocation.{AllocationManager}
use succinct_filesystem.Serial.{Serializable}
use succinct_filesystem.FileSystem
use succinct_filesystem.FileSystem.{FileSystem}
use succinct_filesystem.Fuse
use succinct_filesystem.Fuse.{
  Errno, done, estale, enotdir, enoent, eisdir, enotempty, eio, Stat, no_stat, Entry, Reply, err,
  entry, created, attributes, written, directory, terminated, bytes, opened, statistics, ToSet,
  s_ifdir, s_ifreg, Search, thrown, missing, found, Session,
}
use succinct_filesystem.Fuse.Handlers
use succinct_filesystem.Fuse.Handlers.{
  Request, lookup, getattr, setattr, mkdir, unlink, rmdir, open_file, read, write, readdir, stats,
  create,
}
use succinct_filesystem.Base.Seq.{insert_at}
use succinct_filesystem.Flouds
use succinct_filesystem.Flouds.Insert.{new_kind}
use succinct_filesystem.FileSystem.Nodes.{IsAligned, new_inode, add_node_lem}
use succinct_filesystem.FileSystem.Saving.{save-kept}

-- The entry of a new node that mkdir and create reply.
abbrev pub new_entry : Bool → ℕ → ℕ → Entry
new_entry is_folder mode ino = record {
  ino = ino;
  attr = record {
    st_ino = ino;
    st_mode = bit_or (if is_folder then s_ifdir else s_ifreg) mode;
    st_nlink = if is_folder then 2 else 1;
    st_size = 0;
    st_atime = 0;
    st_mtime = 0;
    st_ctime = 0;
  };
  attr_timeout = 1000;
  entry_timeout = 1000;
}

module _ (B : BitVector) (N : NameSequence) (A : AllocationManager) (SF : Serializable (Flouds B N))
    (SI : Serializable ArrayInodeManager) (SA : Serializable A.Carrier)
    (direntry_size : Name → ℕ) where
  save-IsAligned :
      (fs : FileSystem B N A) (bits : List Bool) (kinds : List ℕ) (labels : List Name)
      → IsAligned B N A fs bits kinds labels
      → IsAligned B N A (FileSystem.save B N A SF SI SA fs) bits kinds labels
  save-IsAligned fs bits kinds labels v =
      let kept = save-kept B N A SF SI SA fs in
      record { tree = rw kept.0 v.tree; same = rw kept.1 v.same }

  -- What mkdir (`is_folder` is true) or create (false) leaves, when it has put a node at `n` under the
  -- folder `p`: a tree that has it there, with its type and name, in step with its inodes; the
  -- inode of the node, with the mode that was asked for, the times `now` and no bytes, among those
  -- that flushing a delayed write left; and a log with one insertion at `n` more. `e` is the entry
  -- that is replied.
  pub record Made (now : ℕ) (s s' : Session B N A) (labels : List Name) (p : ℕ) (name : Name)
      (is_folder : Bool) (mode n : ℕ) (e : Entry) : Type 0 where
    pub bits' : List Bool
    pub kinds' : List ℕ
    pub aligned : IsAligned B N A s'.file_system bits' kinds' (insert_at labels n name)
    pub kind : get_elem? kinds' n ≡ some (new_kind is_folder)
    pub adopted : Flouds.parent B N s'.file_system.flouds n ≡ some p
    pub inodes :
        s'.file_system.inode_manager.inodes
        ≡ insert_at
            (FileSystem.flush_delayed_write B N A s.file_system).inode_manager.inodes
            n
            (new_inode now mode)
    pub logged : s'.delta_stabilization ≡ record_insert s.delta_stabilization n
    pub replied :
        e ≡ new_entry is_folder mode (flouds_inode_to_stable_inode s'.delta_stabilization n)

  -- What handle_add replies and leaves, for the attributes that mkdir and create give.
  added :
      (now : ℕ) (s : Session B N A) (bits : List Bool) (kinds : List ℕ) (labels : List Name)
      (ino p : ℕ) (name : Name) (is_folder : Bool) (mode : ℕ) (attr : Stat) (reply : Entry → Reply)
      → IsAligned B N A s.file_system bits kinds labels
      → stable_inode_to_flouds_inode s.delta_stabilization ino ≡ some p
      → (get_elem? kinds p ≡ some 1) ⊎ (get_elem? kinds p ≡ some 2)
      → ((n : ℕ) → Fuse.make_entry B N A n attr ≡ new_entry is_folder mode n)
      → (s' : Session B N A) × (n : ℕ) × (e : Entry) × (Handlers.handle_add B N A SF SI SA
            direntry_size now s ino name is_folder mode attr reply
          ≡ (s', reply e))
        × Made now s s' labels p name is_folder mode n e
  unfolding Handlers.handle_add Fuse.resolve
  added now s bits kinds labels ino p name is_folder mode attr reply v resolved folder same_attr =
      let (fs', n, done_adding, made) =
        add_node_lem B N A now s.file_system bits kinds labels v p name is_folder mode folder in
      let d = record_insert s.delta_stabilization n in
      let e = Fuse.make_entry B N A (flouds_inode_to_stable_inode d n) attr in
      let kept = save-kept B N A SF SI SA fs' in
      let result : FileSystem B N A → Session B N A × Reply = λ fs. (
        record { file_system = FileSystem.save B N A SF SI SA fs; delta_stabilization = d },
        reply e,
      ) in
      (
        record { file_system = FileSystem.save B N A SF SI SA fs'; delta_stabilization = d },
        n,
        e,
        rw (resolved, Fuse.resolve, done_adding)
            (ap (λ (r : FileSystem B N A × Option ℕ). result (r.0)) done_adding),
        record {
          bits' = made.bits';
          kinds' = made.kinds';
          aligned =
              save-IsAligned fs' made.bits' made.kinds' (insert_at labels n name) made.aligned;
          kind = made.kind;
          adopted = rw kept.0 made.adopted;
          inodes = rw kept.1 made.inodes;
          logged = refl;
          replied = same_attr (flouds_inode_to_stable_inode d n);
        },
      )

  -- With a well-formed tree in step with its inodes, mkdir and create under any folder put a folder
  -- or a file of that name there: a child of that folder, with the type, the mode and the times of a
  -- new one. They reply its entry, with the inode number that the log then gives for its position and
  -- with exactly the attributes of a new folder or file of that mode; the tree and the inodes are in
  -- step again, the other inodes are those that flushing a delayed write left, and the log has one
  -- insertion more.
  pub add_request :
      (now : ℕ) (s : Session B N A) (bits : List Bool) (kinds : List ℕ) (labels : List Name)
      (ino p : ℕ) (name : Name) (mode : ℕ)
      → IsAligned B N A s.file_system bits kinds labels
      → stable_inode_to_flouds_inode s.delta_stabilization ino ≡ some p
      → (get_elem? kinds p ≡ some 1) ⊎ (get_elem? kinds p ≡ some 2)
      → ((s' : Session B N A) × (n : ℕ) × (e : Entry) × (Handlers.handle B N A SF SI SA
              direntry_size now s
              (mkdir ino name mode)
            ≡ (s', entry e))
          × Made now s s' labels p name true mode n e)
        × ((s' : Session B N A) × (n : ℕ) × (e : Entry) × (Handlers.handle B N A SF SI SA
                direntry_size now s
                (create ino name mode)
              ≡ (s', created e))
            × Made now s s' labels p name false mode n e)
  unfolding Handlers.handle Handlers.handle_mkdir Handlers.handle_create Fuse.make_entry
  add_request now s bits kinds labels ino p name mode v resolved folder = (
    added now s bits kinds labels ino p name true mode _ entry v resolved folder (λ n. refl),
    added now s bits kinds labels ino p name false mode _ created v resolved folder (λ n. refl),
  )
