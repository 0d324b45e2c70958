-- ===== src/Fuse/Handlers.antt =====
-- The FUSE handlers that change the file system, readdir, and the table of all handlers
-- (src/fuse.cpp).
pub mod Errors
pub mod Files
pub mod Nodes
mod Tests
use Prim.Native.Nat.{bit_or}
use succinct_filesystem.Base.{
  ℕ, zero, suc, ◌+◌, ◌-◌, ◌≤◌, ◌<◌, Bool, true, false, not, ◌&&◌, List, [], ◌∷◌, ◌++◌, Option, none,
  some, ltb, leb, ◌==◌, if◌then◌else◌, ◌>>=◌, map,
}
use succinct_filesystem.Base.Seq.{length}
use succinct_filesystem.BitVector.{BitVector}
use succinct_filesystem.NameSequence.{NameSequence, Name}
use succinct_filesystem.Delta.{
  DeltaStabilization, record_insert, record_remove, flouds_inode_to_stable_inode,
}
use succinct_filesystem.Flouds
use succinct_filesystem.Flouds.{Flouds}
use succinct_filesystem.Inodes.{Inode, ArrayInodeManager, set_inode}
use succinct_filesystem.Allocation.{AllocationManager}
use succinct_filesystem.Serial.{Serializable}
use succinct_filesystem.FileSystem
use succinct_filesystem.Fuse
use succinct_filesystem.Fuse.{
  Errno, done, estale, enotdir, enoent, eisdir, enotempty, eio, Stat, no_stat, Entry, Dirent, Reply,
  err, entry, created, attributes, written, directory, terminated, ToSet, s_ifdir, s_ifreg, Search,
  thrown, missing, found, Session,
}

-- The calls that the kernel makes, with the handlers' arguments.
pub data Request : Type 0 where
  lookup : ℕ → Name → Request
  getattr : ℕ → Request
  setattr : ℕ → Stat → ToSet → Request
  mkdir : ℕ → Name → ℕ → Request
  unlink : ℕ → Name → Request
  rmdir : ℕ → Name → Request
  open_file : ℕ → Request
  read : ℕ → ℕ → ℕ → Request
  write : ℕ → List ℕ → ℕ → Request
  readdir : ℕ → ℕ → Request
  stats : Request
  create : ℕ → Name → ℕ → Request

module _ (B : BitVector) (N : NameSequence) (A : AllocationManager) (SF : Serializable (Flouds B N))
    (SI : Serializable ArrayInodeManager) (SA : Serializable A.Carrier)
    (direntry_size : Name → ℕ) where
  abbrev pub saved : Session B N A → Session B N A
  saved s = record s { file_system = FileSystem.save B N A SF SI SA s.file_system }

  -- A write through the pointer to the inode of a node.
  pub change_inode : Session B N A → ℕ → (Inode → Inode) → Session B N A
  change_inode s node change =
      let fs = s.file_system in
      record s {
        file_system = record fs {
          inode_manager = set_inode fs.inode_manager node (change (Fuse.inode_of B N A s node));
        };
      }

  pub handle_setattr : Session B N A → ℕ → Stat → ToSet → Session B N A × Reply
  handle_setattr s ino attr to_set = Fuse.resolve B N A s ino λ node.
      let s1 =
        if to_set.set_mode
        then change_inode s node (λ inode. record inode { mode = attr.st_mode })
        else s in
      let s2 =
        if to_set.set_size && Flouds.is_file B N (Fuse.tree_of B N A s) node
        then record s1 {
          file_system = FileSystem.set_file_size B N A s1.file_system node attr.st_size;
        }
        else s1 in
      let s3 =
        if to_set.set_atime
        then change_inode s2 node (λ inode. record inode { access_time = attr.st_atime })
        else s2 in
      let s4 =
        if to_set.set_mtime
        then change_inode s3 node (λ inode. record inode { modification_time = attr.st_mtime })
        else s3 in
      (saved s4, attributes (Fuse.stat_of B N A s4 ino node))

  pub handle_write : ℕ → Session B N A → ℕ → List ℕ → ℕ → Session B N A × Reply
  handle_write now s ino buffer off = Fuse.resolve B N A s ino λ node.
      if not (Flouds.is_file B N (Fuse.tree_of B N A s) node) then (s, err enoent) else (
        saved (record s {
          file_system = FileSystem.write_file B N A now s.file_system node buffer off;
        }),
        written (length buffer),
      )

  -- The entries for the children, from the `i`-th on, with the rounds left first; `none` if FLOUDS
  -- throws.
  pub child_entries : ℕ → Session B N A → ℕ → ℕ → Option (List Dirent)
  child_entries zero s node i = some []
  child_entries (suc rounds) s node i =
      let f = Fuse.tree_of B N A s in
      Flouds.child B N f node i >>= λ child_node. child_entries rounds s node (i + 1) >>= λ rest.
      some (
        record {
          name = Flouds.get_name B N f child_node;
          dirent_ino = flouds_inode_to_stable_inode s.delta_stabilization child_node;
          dirent_mode = if Flouds.is_folder B N f child_node then s_ifdir else s_ifreg;
          next_off = i + 3;
        }
        ∷ rest)

  -- "." and ".."
  pub dot_entry : ℕ → ℕ → Name → Dirent
  dot_entry ino next_off name = record {
    name = name;
    dirent_ino = ino;
    dirent_mode = s_ifdir;
    next_off = next_off;
  }

  -- Entries are added from `off` on until one does not fit in the `rem` bytes that are left.
  pub fill_directory : ℕ → ℕ → List Dirent → List Dirent
  fill_directory off rem [] = []
  fill_directory off rem (e ∷ entries) =
      let size = direntry_size e.name in
      let skipped = fill_directory off rem entries in
      let added = fill_directory off (rem - size) entries in
      if leb off (e.next_off - 1) then (if ltb rem size then [] else e ∷ added) else skipped

  pub handle_readdir : Session B N A → ℕ → ℕ → Session B N A × Reply
  handle_readdir s ino off = Fuse.resolve B N A s ino λ node.
      let f = Fuse.tree_of B N A s in
      let children =
        Flouds.children_count B N f node >>= λ num_children. child_entries num_children s node 0 in
      let dots = dot_entry ino 1 (b'.' ∷ []) ∷ dot_entry ino 2 (b'.' ∷ b'.' ∷ []) ∷ [] in
      if not (Flouds.is_folder B N f node) then (s, err enotdir) else elim children [
        | none ↦ (s, terminated)
        | some entries ↦ (s, directory (fill_directory off 4096 (dots ++ entries)))
      ]

  -- What mkdir and create have in common; the reply is made from the entry of the new node.
  pub handle_add :
      ℕ → Session B N A → ℕ → Name → Bool → ℕ → Stat → (Entry → Reply) → Session B N A × Reply
  handle_add now s parent name is_folder mode attr reply =
      Fuse.resolve B N A s parent λ parent_node.
        let added = FileSystem.add_node B N A now s.file_system parent_node name is_folder mode in
        elim added.1 [
          | none ↦ (record s { file_system = added.0 }, err eio)
          | some new_node ↦
              let d = record_insert s.delta_stabilization new_node in
              (
                saved (record { file_system = added.0; delta_stabilization = d }),
                reply (Fuse.make_entry B N A (flouds_inode_to_stable_inode d new_node) attr),
              )
        ]

  pub handle_mkdir : ℕ → Session B N A → ℕ → Name → ℕ → Session B N A × Reply
  handle_mkdir now s parent name mode =
      handle_add now s parent name true mode
        (record no_stat { st_mode = bit_or s_ifdir mode; st_nlink = 2 }) entry

  pub handle_create : ℕ → Session B N A → ℕ → Name → ℕ → Session B N A × Reply
  handle_create now s parent name mode =
      handle_add now s parent name false mode
        (record no_stat { st_mode = bit_or s_ifreg mode; st_nlink = 1 }) created

  -- The `try` block of unlink and rmdir.
  pub remove_child : Session B N A → ℕ → Session B N A × Reply
  remove_child s child_node =
      let removed = FileSystem.remove_node B N A s.file_system child_node in
      let s' : Session B N A = record {
        file_system = removed.0;
        delta_stabilization = record_remove s.delta_stabilization child_node;
      } in
      if removed.1 then (saved s', err done) else (s', err eio)

  pub handle_unlink : Session B N A → ℕ → Name → Session B N A × Reply
  handle_unlink s parent name = Fuse.resolve B N A s parent λ parent_node.
      let f = Fuse.tree_of B N A s in
      elim (Fuse.find_child B N A f parent_node name) [
        | thrown ↦ (s, terminated)
        | missing ↦ (s, err enoent)
        | found child_node ↦
            if Flouds.is_folder B N f child_node then (s, err eisdir) else remove_child s child_node
      ]

  pub handle_rmdir : Session B N A → ℕ → Name → Session B N A × Reply
  handle_rmdir s parent name = Fuse.resolve B N A s parent λ parent_node.
      let f = Fuse.tree_of B N A s in
      elim (Fuse.find_child B N A f parent_node name) [
        | thrown ↦ (s, terminated)
        | missing ↦ (s, err enoent)
        | found child_node ↦
            if not (Flouds.is_folder B N f child_node)
            then (s, err enotdir)
            else if not (Flouds.is_empty_folder B N f child_node)
            then (s, err enotempty)
            else remove_child s child_node
      ]

  -- The table flouds_operations.
  pub handle : ℕ → Session B N A → Request → Session B N A × Reply
  handle now s (lookup parent name) = Fuse.lookup B N A s parent name
  handle now s (getattr ino) = Fuse.getattr B N A s ino
  handle now s (setattr ino attr to_set) = handle_setattr s ino attr to_set
  handle now s (mkdir parent name mode) = handle_mkdir now s parent name mode
  handle now s (unlink parent name) = handle_unlink s parent name
  handle now s (rmdir parent name) = handle_rmdir s parent name
  handle now s (open_file ino) = Fuse.open_file B N A s ino
  handle now s (read ino size off) = Fuse.read B N A now s ino size off
  handle now s (write ino buffer off) = handle_write now s ino buffer off
  handle now s (readdir ino off) = handle_readdir s ino off
  handle now s stats = Fuse.stats B N A s
  handle now s (create parent name mode) = handle_create now s parent name mode
