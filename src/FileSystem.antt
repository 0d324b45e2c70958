-- ===== src/FileSystem.antt =====
-- FileSystemManager (src/fsm/file_system_manager.cpp), built with DELAYED_ALLOCATION, which is how the
-- Makefile builds it: it keeps the tree, the inodes and the allocated bytes together. `now` is what
-- std::time returns during an operation. Block 0 is kept as the header that was last written to it.
pub mod Files
pub mod Nodes
pub mod Saving
pub mod Sample
mod Tests
use succinct_filesystem.Base.{
  ℕ, zero, suc, ◌+◌, ◌-◌, ◌*◌, ◌≤◌, ◌<◌, Bool, true, false, ◌&&◌, List, [], ◌++◌, Option, none,
  some, min, ltb, leb, ◌==◌, if◌then◌else◌,
}
use succinct_filesystem.Base.Seq.{length, take, drop, replicate}
use succinct_filesystem.Base.Bytes.{memcpy}
use succinct_filesystem.BitVector.{BitVector}
use succinct_filesystem.NameSequence.{NameSequence, Name}
use succinct_filesystem.Flouds
use succinct_filesystem.Flouds.{Flouds}
use succinct_filesystem.Inodes.{
  Inode, ArrayInodeManager, blank, create_inode_manager, get_inode, set_inode, insert_inode,
  remove_inode,
}
use succinct_filesystem.Allocation.{AllocationManager}
use succinct_filesystem.Serial.{Serializable}

pub record FloudsHeader : Type 0 where
  pub allocation_manager_handle : ℕ
  pub allocation_manager_size : ℕ
  pub flouds_handle : ℕ
  pub flouds_size : ℕ
  pub inode_manager_handle : ℕ
  pub inode_manager_size : ℕ

pub record DelayedWrite : Type 0 where
  pub inode : ℕ
  pub size : ℕ
  pub offset : ℕ

pub record FileSystem (B : BitVector) (N : NameSequence) (A : AllocationManager) : Type 0 where
  pub header : FloudsHeader
  pub flouds : Flouds B N
  pub inode_manager : ArrayInodeManager
  pub allocation_manager : A.Carrier
  pub delayed_write : DelayedWrite
  pub delayed_write_buffer : List ℕ

module _ (B : BitVector) (N : NameSequence) (A : AllocationManager) where
  -- `(handle == 0) ? allocate(new_size) : resize(handle, old_size, new_size)`
  pub place : A.Carrier → ℕ → ℕ → ℕ → A.Carrier × ℕ
  place a handle old_size new_size =
      if handle == 0 then A.allocate a new_size else A.resize a handle old_size new_size

  -- `place` for the file of an inode, which then has the new size.
  pub place_file : FileSystem B N A → ℕ → ℕ → FileSystem B N A
  place_file fs inode new_size =
      let node = get_inode fs.inode_manager inode in
      let placed = place fs.allocation_manager node.allocation_handle node.size new_size in
      record fs {
        allocation_manager = placed.0;
        inode_manager =
            set_inode fs.inode_manager inode
              (record node { allocation_handle = placed.1; size = new_size });
      }

  -- `allocation_manager->write(node->allocation_handle, ...)`
  pub write_through : FileSystem B N A → ℕ → List ℕ → ℕ → FileSystem B N A
  write_through fs inode bytes offset = record fs {
    allocation_manager =
        A.write fs.allocation_manager (get_inode fs.inode_manager inode).allocation_handle bytes
          offset;
  }

  pub flush_delayed_write : FileSystem B N A → FileSystem B N A
  flush_delayed_write fs =
      let w = fs.delayed_write in
      let written =
        write_through (place_file fs w.inode w.size) w.inode (take w.size fs.delayed_write_buffer)
          w.offset in
      if w.size == 0 then fs else record written { delayed_write = record w { size = 0 } }

  -- The second part is `none` if FLOUDS throws.
  pub add_node : ℕ → FileSystem B N A → ℕ → Name → Bool → ℕ → FileSystem B N A × Option ℕ
  add_node now fs parent_inode name is_folder mode =
      let flushed = flush_delayed_write fs in
      let node = record blank {
        mode = mode;
        access_time = now;
        creation_time = now;
        modification_time = now;
      } in
      elim (Flouds.insert B N flushed.flouds parent_inode name is_folder) [
        | none ↦ (flushed, none)
        | some (flouds, inode_number) ↦ (
          record flushed {
            flouds = flouds;
            inode_manager =
                set_inode (insert_inode flushed.inode_manager inode_number) inode_number node;
          },
          some inode_number,
        )
      ]

  -- The second part is `false` if FLOUDS throws.
  pub remove_node : FileSystem B N A → ℕ → FileSystem B N A × Bool
  remove_node fs inode_number =
      let flushed = flush_delayed_write fs in
      let node = get_inode flushed.inode_manager inode_number in
      let freed = record flushed {
        allocation_manager =
            if node.allocation_handle == 0
            then flushed.allocation_manager
            else A.free flushed.allocation_manager node.allocation_handle node.size;
      } in
      elim (Flouds.remove B N flushed.flouds inode_number) [
        | none ↦ (freed, false)
        | some flouds ↦ (
          record freed {
            flouds = flouds;
            inode_manager = remove_inode flushed.inode_manager inode_number;
          },
          true,
        )
      ]

  -- The read of the part that is not in the buffer.
  pub read_stored : ℕ → FileSystem B N A → ℕ → ℕ → ℕ → FileSystem B N A × List ℕ
  read_stored now fs inode size offset =
      let node = get_inode fs.inode_manager inode in
      (
        record fs {
          inode_manager = set_inode fs.inode_manager inode (record node { access_time = now });
        },
        A.read fs.allocation_manager node.allocation_handle size offset,
      )

  pub read_file : ℕ → FileSystem B N A → ℕ → ℕ → ℕ → FileSystem B N A × List ℕ
  read_file now fs inode size offset =
      let w = fs.delayed_write in
      let overlaps =
        ltb 0 w.size && w.inode == inode && leb w.offset offset && ltb offset (w.offset + w.size) in
      let delayed_write_offset = offset - w.offset in
      let n = min size (w.size - delayed_write_offset) in
      let bytes = take n (drop delayed_write_offset fs.delayed_write_buffer) in
      let rest = read_stored now fs inode (size - n) (offset + n) in
      if overlaps
      then (if n == size then (fs, bytes) else (rest.0, bytes ++ rest.1))
      else read_stored now fs inode size offset

  -- `write_file` behind the merge and the flush.
  pub write_fresh : ℕ → FileSystem B N A → ℕ → List ℕ → ℕ → FileSystem B N A
  write_fresh now fs inode buffer offset =
      let size = length buffer in
      let stored = write_through (place_file fs inode (offset + size)) inode buffer offset in
      if leb (A.block_size * 16) size
      then record stored {
        inode_manager =
            set_inode stored.inode_manager inode
              (record (get_inode stored.inode_manager inode) { modification_time = now });
      }
      else record fs {
        delayed_write = record { inode = inode; size = size; offset = offset };
        delayed_write_buffer = memcpy fs.delayed_write_buffer 0 buffer;
      }

  pub write_file : ℕ → FileSystem B N A → ℕ → List ℕ → ℕ → FileSystem B N A
  write_file now fs inode buffer offset =
      let w = fs.delayed_write in
      let size = length buffer in
      let contiguous =
        w.inode == inode
        && w.offset + w.size == offset
        && leb (w.size + size) (A.block_size * 16) in
      if ltb 0 w.size
      then (if contiguous
          then record fs {
            delayed_write = record w { size = w.size + size };
            delayed_write_buffer = memcpy fs.delayed_write_buffer w.size buffer;
          }
          else write_fresh now (flush_delayed_write fs) inode buffer offset)
      else write_fresh now fs inode buffer offset

  pub set_file_size : FileSystem B N A → ℕ → ℕ → FileSystem B N A
  set_file_size fs inode size = place_file fs inode size

  pub get_total_blocks : FileSystem B N A → ℕ
  get_total_blocks fs = A.get_total_blocks fs.allocation_manager

  pub get_used_blocks : FileSystem B N A → ℕ
  get_used_blocks fs = A.get_used_blocks fs.allocation_manager

  module _ (SF : Serializable (Flouds B N)) (SI : Serializable ArrayInodeManager)
      (SA : Serializable A.Carrier) where
    -- The loop of save that lets the allocation's own size settle, with a bound on its rounds: the
    -- source has none, and over the best-fit allocation two are enough (FileSystem.Saving).
    pub settle : ℕ → A.Carrier → ℕ → ℕ → A.Carrier × ℕ × ℕ
    settle zero a handle size = (a, handle, size)
    settle (suc rounds) a handle size =
        let new_size = SA.get_serialized_size a in
        let resized = A.resize a handle new_size new_size in
        let rest = settle rounds resized.0 resized.1 new_size in
        if size == new_size then (a, handle, size) else rest

    -- One component is placed, as its handle and size in the header say, and written.
    pub save_bytes : A.Carrier → ℕ → ℕ → List ℕ → ℕ → A.Carrier × ℕ
    save_bytes a handle old_size bytes new_size =
        let placed = place a handle old_size new_size in
        (A.write placed.0 placed.1 bytes 0, placed.1)

    pub save : FileSystem B N A → FileSystem B N A
    save fs =
        let flouds_size = SF.get_serialized_size fs.flouds in
        let first =
          save_bytes fs.allocation_manager fs.header.flouds_handle fs.header.flouds_size
            (SF.serialize fs.flouds) flouds_size in
        let inode_manager_size = SI.get_serialized_size fs.inode_manager in
        let second =
          save_bytes first.0 fs.header.inode_manager_handle fs.header.inode_manager_size
            (SI.serialize fs.inode_manager) inode_manager_size in
        let size = SA.get_serialized_size second.0 in
        let third =
          place second.0 fs.header.allocation_manager_handle fs.header.allocation_manager_size
            size in
        let settled = settle 2 third.0 third.1 size in
        record fs {
          allocation_manager = A.write settled.0 settled.1 (SA.serialize settled.0) 0;
          header = record {
            allocation_manager_handle = settled.1;
            allocation_manager_size = settled.2;
            flouds_handle = first.1;
            flouds_size = flouds_size;
            inode_manager_handle = second.1;
            inode_manager_size = inode_manager_size;
          };
        }

    pub unmount : FileSystem B N A → FileSystem B N A
    unmount fs = save (flush_delayed_write fs)

    -- What mount makes of a device, as a new allocation manager sees it: `none` stands for a first
    -- block without the magic string.
    pub mount : Option FloudsHeader → A.Carrier → FileSystem B N A
    mount none a = save (record {
      header = record {
        allocation_manager_handle = 0;
        allocation_manager_size = 0;
        flouds_handle = 0;
        flouds_size = 0;
        inode_manager_handle = 0;
        inode_manager_size = 0;
      };
      flouds = Flouds.create_flouds B N;
      inode_manager = insert_inode create_inode_manager 0;
      allocation_manager = a;
      delayed_write = record { inode = 0; size = 0; offset = 0 };
      delayed_write_buffer = replicate (A.block_size * 16) 0;
    })
    mount (some header) a =
        let loaded =
          SA.deserialize a
            (A.read a header.allocation_manager_handle header.allocation_manager_size 0) in
        record {
          header = header;
          flouds =
              SF.deserialize (Flouds.create_flouds B N)
                (A.read loaded header.flouds_handle header.flouds_size 0);
          inode_manager =
              SI.deserialize create_inode_manager
                (A.read loaded header.inode_manager_handle header.inode_manager_size 0);
          allocation_manager = loaded;
          delayed_write = record { inode = 0; size = 0; offset = 0 };
          delayed_write_buffer = replicate (A.block_size * 16) 0;
        }
