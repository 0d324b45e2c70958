-- ===== src/Fuse.antt =====
-- The FUSE handlers (src/fuse.cpp), built with DELTA_STABILIZATION: what each does to the file system
-- and to the log of inode numbers, and what it replies. libfuse is outside the repository: a request
-- is its arguments, a reply the arguments of fuse_reply_*, and the size that fuse_add_direntry takes
-- for an entry is a parameter.
pub mod Handlers
use Prim.Native.Nat.{bit_or}
use succinct_filesystem.Base.{
  ℕ, zero, suc, ◌+◌, ◌-◌, ◌*◌, ◌≤◌, ◌<◌, Bool, true, false, not, ◌&&◌, List, [], ◌∷◌, ◌++◌, Option,
  none, some, ltb, leb, ◌==◌, if◌then◌else◌,
}
use succinct_filesystem.Base.Seq.{length}
use succinct_filesystem.BitVector.{BitVector}
use succinct_filesystem.NameSequence.{NameSequence, Name}
use succinct_filesystem.Delta.{
  DeltaStabilization, record_insert, record_remove, stable_inode_to_flouds_inode,
  flouds_inode_to_stable_inode,
}
use succinct_filesystem.Flouds
use succinct_filesystem.Flouds.{Flouds}
use succinct_filesystem.Inodes.{Inode, ArrayInodeManager, get_inode, set_inode}
use succinct_filesystem.Allocation.{AllocationManager}
use succinct_filesystem.Serial.{Serializable}
use succinct_filesystem.FileSystem
use succinct_filesystem.FileSystem.{FileSystem}

-- The error codes; `done` is 0.
pub data Errno : Type 0 where
  done estale enotdir enoent eisdir enotempty eio : Errno

-- struct stat, with 0 for what is not set.
pub record Stat : Type 0 where
  pub st_ino : ℕ
  pub st_mode : ℕ
  pub st_nlink : ℕ
  pub st_size : ℕ
  pub st_atime : ℕ
  pub st_mtime : ℕ
  pub st_ctime : ℕ

abbrev pub no_stat : Stat
no_stat = record {
  st_ino = 0;
  st_mode = 0;
  st_nlink = 0;
  st_size = 0;
  st_atime = 0;
  st_mtime = 0;
  st_ctime = 0;
}

pub record Entry : Type 0 where
  pub ino : ℕ
  pub attr : Stat
  pub attr_timeout : ℕ
  pub entry_timeout : ℕ

pub record Dirent : Type 0 where
  pub name : Name
  pub dirent_ino : ℕ
  pub dirent_mode : ℕ
  pub next_off : ℕ

pub record Statvfs : Type 0 where
  pub f_bsize : ℕ
  pub f_frsize : ℕ
  pub f_blocks : ℕ
  pub f_bfree : ℕ
  pub f_bavail : ℕ

-- `terminated` is an exception that leaves the handler, which ends the process.
pub data Reply : Type 0 where
  err : Errno → Reply
  entry : Entry → Reply
  created : Entry → Reply
  attributes : Stat → Reply
  opened : Reply
  bytes : List ℕ → Reply
  written : ℕ → Reply
  directory : List Dirent → Reply
  statistics : Statvfs → Reply
  terminated : Reply

-- The bits of `to_set` that setattr reads.
pub record ToSet : Type 0 where
  pub set_mode : Bool
  pub set_size : Bool
  pub set_atime : Bool
  pub set_mtime : Bool

abbrev pub s_ifdir : ℕ
s_ifdir = 0x4000

abbrev pub s_ifreg : ℕ
s_ifreg = 0x8000

-- `std::string == const char*`
pub same_name : Name → Name → Bool
same_name [] [] = true
same_name (x ∷ xs) (y ∷ ys) = x == y && same_name xs ys
same_name _ _ = false

-- What the loop over the children finds; `thrown` if FLOUDS throws.
pub data Search : Type 0 where
  thrown missing : Search
  found : ℕ → Search

pub record Session (B : BitVector) (N : NameSequence) (A : AllocationManager) : Type 0 where
  pub file_system : FileSystem B N A
  pub delta_stabilization : DeltaStabilization

module _ (B : BitVector) (N : NameSequence) (A : AllocationManager) where
  -- try_resolve_inode, with what the handler does with the node.
  pub resolve : Session B N A → ℕ → (ℕ → Session B N A × Reply) → Session B N A × Reply
  resolve s stable_inode k =
      elim (stable_inode_to_flouds_inode s.delta_stabilization stable_inode) [
        | none ↦ (s, err estale)
        | some node ↦ k node
      ]

  -- The loop of lookup, unlink and rmdir, with the rounds left first.
  pub search_child : ℕ → Flouds B N → ℕ → Name → ℕ → Search
  search_child zero f parent_node name i = missing
  search_child (suc rounds) f parent_node name i =
      let rest = search_child rounds f parent_node name (i + 1) in
      elim (Flouds.child B N f parent_node i) [
        | none ↦ thrown
        | some child_node ↦
            if same_name (Flouds.get_name B N f child_node) name then found child_node else rest
      ]

  pub find_child : Flouds B N → ℕ → Name → Search
  find_child f parent_node name = elim (Flouds.children_count B N f parent_node) [
    | none ↦ thrown
    | some num_children ↦ search_child num_children f parent_node name 0
  ]

  abbrev pub tree_of : Session B N A → Flouds B N
  tree_of s = s.file_system.flouds

  abbrev pub inode_of : Session B N A → ℕ → Inode
  inode_of s node = get_inode s.file_system.inode_manager node

  pub make_entry : ℕ → Stat → Entry
  make_entry ino attr = record {
    ino = ino;
    attr = record attr { st_ino = ino };
    attr_timeout = 1000;
    entry_timeout = 1000;
  }

  pub lookup : Session B N A → ℕ → Name → Session B N A × Reply
  lookup s parent name = resolve s parent λ parent_node.
      let f = tree_of s in
      if not (Flouds.is_folder B N f parent_node)
      then (s, err enotdir)
      else elim (find_child f parent_node name) [
        | thrown ↦ (s, terminated)
        | missing ↦ (s, err enoent)
        | found child_node ↦
            let folder = Flouds.is_folder B N f child_node in
            let attr = record no_stat {
              st_nlink = if folder then 2 else 1;
              st_mode = if folder then bit_or s_ifdir 0x1ed else bit_or s_ifreg 0x1a4;
              st_size = if folder then 0 else (inode_of s child_node).size;
            } in
            (
              s,
              entry
                  (make_entry (flouds_inode_to_stable_inode s.delta_stabilization child_node) attr),
            )
      ]

  -- The part of getattr and setattr that fills struct stat.
  pub stat_of : Session B N A → ℕ → ℕ → Stat
  stat_of s ino node =
      let inode = inode_of s node in
      let f = tree_of s in
      let folder = Flouds.is_folder B N f node in
      let file = Flouds.is_file B N f node in
      record {
        st_ino = ino;
        st_mode =
            if folder
            then bit_or s_ifdir inode.mode
            else if file
            then bit_or s_ifreg inode.mode
            else 0;
        st_nlink = if folder then 2 else if file then 1 else 0;
        st_size = if folder then 0 else if file then inode.size else 0;
        st_atime = inode.access_time;
        st_mtime = inode.modification_time;
        st_ctime = inode.creation_time;
      }

  pub getattr : Session B N A → ℕ → Session B N A × Reply
  getattr s ino = resolve s ino λ node.
      if not (Flouds.is_folder B N (tree_of s) node) && not (Flouds.is_file B N (tree_of s) node)
      then (s, err enoent)
      else (s, attributes (stat_of s ino node))

  pub open_file : Session B N A → ℕ → Session B N A × Reply
  open_file s ino =
      resolve s ino
        λ node. if Flouds.is_file B N (tree_of s) node then (s, opened) else (s, err enoent)

  pub read : ℕ → Session B N A → ℕ → ℕ → ℕ → Session B N A × Reply
  read now s ino size off = resolve s ino λ node.
      let file_size = (inode_of s node).size in
      let size' = if ltb file_size (off + size) then file_size - off else size in
      let result = FileSystem.read_file B N A now s.file_system node size' off in
      if not (Flouds.is_file B N (tree_of s) node)
      then (s, err enoent)
      else if leb file_size off
      then (s, bytes [])
      else (record s { file_system = result.0 }, bytes result.1)

  pub stats : Session B N A → Session B N A × Reply
  stats s =
      let total_blocks = FileSystem.get_total_blocks B N A s.file_system in
      let used_blocks = FileSystem.get_used_blocks B N A s.file_system in
      (
        s,
        statistics (record {
          f_bsize = A.block_size;
          f_frsize = A.block_size;
          f_blocks = total_blocks;
          f_bfree = total_blocks - used_blocks;
          f_bavail = total_blocks - used_blocks;
        }),
      )
