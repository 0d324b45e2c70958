-- ===== src/Fuse/Handlers/Files.antt =====
-- Reading and writing files through the FUSE handlers (src/fuse.cpp).
use succinct_filesystem.Base.{
  ℕ, ◌+◌, ◌-◌, ◌≤◌, ◌<◌, ◌≡◌, refl, ap, ◌∙◌, true, List, [], some, ltb, leb, if◌then◌else◌,
  Bool-cases, inl, inr, arith, ◌*◌,
}
use succinct_filesystem.Base.Seq.{length}
use succinct_filesystem.BitVector.{BitVector}
use succinct_filesystem.NameSequence.{NameSequence, Name}
use succinct_filesystem.Delta.{stable_inode_to_flouds_inode}
use succinct_filesystem.Flouds
use succinct_filesystem.Flouds.{Flouds}
use succinct_filesystem.Inodes.{ArrayInodeManager}
use succinct_filesystem.Allocation.{AllocationManager}
use succinct_filesystem.Serial.{Serializable}
use succinct_filesystem.FileSystem
use succinct_filesystem.FileSystem.{FileSystem}
use succinct_filesystem.Fuse
use succinct_filesystem.Fuse.{
  Errno, done, estale, enotdir, enoent, eisdir, enotempty, eio, Stat, no_stat, Entry, Reply, err,
  entry, created, attributes, written, directory, terminated, bytes, opened, statistics, ToSet,
  Search, thrown, missing, found, Session,
}
use succinct_filesystem.Fuse.Handlers
use succinct_filesystem.Fuse.Handlers.{
  Request, lookup, getattr, setattr, mkdir, unlink, rmdir, open_file, read, write, readdir, stats,
  create,
}
use succinct_filesystem.Base.{min}
use succinct_filesystem.FileSystem.Files
use succinct_filesystem.FileSystem.Files.{IsBuffered}
use succinct_filesystem.Inodes.{get_inode}
use succinct_filesystem.FileSystem.Saving.{save-kept}

module _ (B : BitVector) (N : NameSequence) (A : AllocationManager) (SF : Serializable (Flouds B N))
    (SI : Serializable ArrayInodeManager) (SA : Serializable A.Carrier)
    (direntry_size : Name → ℕ) where
  -- The number of bytes that a read at `off` replies is what is asked for, cut off at the size of the
  -- file, on every branch.
  pub read-length :
      (now : ℕ) (s : Session B N A) (ino node size off : ℕ)
      → IsBuffered B N A s.file_system
      → stable_inode_to_flouds_inode s.delta_stabilization ino ≡ some node
      → Flouds.is_file B N s.file_system.flouds node ≡ true
      → (s' : Session B N A) × (result : List ℕ) × (Handlers.handle B N A SF SI SA direntry_size now
            s
            (read ino size off)
          ≡ (s', bytes result))
        × (length result ≡ min size ((Fuse.inode_of B N A s node).size - off))
  unfolding Handlers.handle Fuse.read Fuse.resolve
  read-length now s ino node size off v resolved file =
      let file_size = (Fuse.inode_of B N A s node).size in
      let size' = if ltb file_size (off + size) then file_size - off else size in
      let done_read = FileSystem.read_file B N A now s.file_system node size' off in
      elim (Bool-cases (leb file_size off)) [
        | inl past ↦ (s, [], rw (resolved, Fuse.resolve, file, past) refl, ground (arith, past))
        | inr inside ↦ (
          record s { file_system = done_read.0 },
          done_read.1,
          rw (resolved, Fuse.resolve, file, inside) refl,
          Files.length-read_file B N A now s.file_system node size' off v ∙ ground (arith, inside),
        )
      ]

  read_past :
      (now : ℕ) (s : Session B N A) (ino node size off : ℕ)
      → stable_inode_to_flouds_inode s.delta_stabilization ino ≡ some node
      → Flouds.is_file B N s.file_system.flouds node ≡ true
      → (Fuse.inode_of B N A s node).size ≤ off
      → (Fuse.read B N A now s ino size off).1 ≡ bytes []
  unfolding Fuse.read Fuse.resolve
  read_past now s ino node size off resolved file past =
      let out : leb (Fuse.inode_of B N A s node).size off ≡ true = ground (arith, past) in
      rw (resolved, Fuse.resolve, file, out) refl

  -- A small write to an empty file, while no write is delayed, is answered with its length, but a
  -- read of the same place that follows is answered with no bytes: the size of the file, by which
  -- the read is cut off, changes only when the delayed write is flushed.
  pub delayed_write_unread :
      (now later : ℕ) (s : Session B N A) (ino node : ℕ) (buffer : List ℕ) (size off : ℕ)
      → s.file_system.delayed_write.size ≡ 0
      → stable_inode_to_flouds_inode s.delta_stabilization ino ≡ some node
      → Flouds.is_file B N s.file_system.flouds node ≡ true
      → (Fuse.inode_of B N A s node).size ≡ 0
      → length buffer < A.block_size * 16
      → (s' : Session B N A) × (Handlers.handle B N A SF SI SA direntry_size now s
            (write ino buffer off)
          ≡ (s', written (length buffer)))
        × ((Handlers.handle B N A SF SI SA direntry_size later s' (read ino size off)).1 ≡ bytes [])
  unfolding Handlers.handle Fuse.read Fuse.resolve Handlers.handle_write
  delayed_write_unread now later s ino node buffer size off idle resolved file empty small =
      let written_fs = FileSystem.write_file B N A now s.file_system node buffer off in
      let kept = Files.write_delayed B N A now s.file_system node buffer off idle small in
      let same = save-kept B N A SF SI SA written_fs in
      (
        record s { file_system = FileSystem.save B N A SF SI SA written_fs },
        rw (resolved, Fuse.resolve, file) refl,
        read_past later (record s { file_system = FileSystem.save B N A SF SI SA written_fs }) ino
            node size off resolved (ap (λ f. Flouds.is_file B N f node) (same.0 ∙ kept.0) ∙ file)
            (omega (arith, ap (λ m. (get_inode m node).size) (same.1 ∙ kept.1), empty)),
      )
