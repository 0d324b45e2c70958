-- ===== src/Inodes.antt =====
-- Inodes (src/fsm/inode/inode.hpp) and ArrayInodeManagerStrategy (src/fsm/inode/array_inode.cpp). A
-- write through the pointer that get_inode returns is `set_inode`. An access out of range is
-- undefined in C++; it reads a blank inode and changes nothing here. The theorems on the bytes of a
-- file (FileSystem.Files) have no bound on the inode, and say nothing of the C++ for one out of range.
pub mod Hierarchy
use succinct_filesystem.Base.{ℕ, List, []}
use succinct_filesystem.Base.Seq.{get_or, set, insert_at, remove_at}

pub record Inode : Type 0 where
  pub allocation_handle : ℕ
  pub size : ℕ
  pub mode : ℕ
  pub modification_time : ℕ
  pub access_time : ℕ
  pub creation_time : ℕ

-- `Inode{}`
abbrev pub blank : Inode
blank = record {
  allocation_handle = 0;
  size = 0;
  mode = 0;
  modification_time = 0;
  access_time = 0;
  creation_time = 0;
}

pub record ArrayInodeManager : Type 0 where
  pub inodes : List Inode

abbrev pub create_inode_manager : ArrayInodeManager
create_inode_manager = record { inodes = [] }

unfoldable pub get_inode : ArrayInodeManager → ℕ → Inode
get_inode m inode = get_or m.inodes inode blank

unfoldable pub set_inode : ArrayInodeManager → ℕ → Inode → ArrayInodeManager
set_inode m inode node = record m { inodes = set m.inodes inode node }

unfoldable pub insert_inode : ArrayInodeManager → ℕ → ArrayInodeManager
insert_inode m inode = record m { inodes = insert_at m.inodes inode blank }

unfoldable pub remove_inode : ArrayInodeManager → ℕ → ArrayInodeManager
remove_inode m inode = record m { inodes = remove_at m.inodes inode }
