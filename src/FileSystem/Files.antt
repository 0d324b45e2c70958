-- ===== src/FileSystem/Files.antt =====
-- Reading and writing files (src/fsm/file_system_manager.cpp: read_file, write_file and
-- flush_delayed_write).
use succinct_filesystem.Base.{
  ℕ, ◌+◌, ◌-◌, ◌*◌, ◌≤◌, ◌<◌, ◌≡◌, refl, ap, sym, ◌∙◌, true, false, ◌&&◌, List, inl, inr, min, ltb,
  leb, ◌==◌, Bool-cases, arith,
}
use native.Mathlib.Decide.{dec_lt}
use succinct_filesystem.Base.Seq.{
  length-append, length-take, length-drop, set, length, take, drop, get_or-set_self, get_or-beyond,
  length-set, get_or,
}
use succinct_filesystem.Base.Bytes.{memcpy, take-drop-memcpy, length-memcpy}
use succinct_filesystem.BitVector.{BitVector}
use succinct_filesystem.NameSequence.{NameSequence}
use succinct_filesystem.Inodes.{Inode, ArrayInodeManager, blank, get_inode, set_inode}
use succinct_filesystem.Allocation.{AllocationManager}
use succinct_filesystem.FileSystem
use succinct_filesystem.FileSystem.{FileSystem}

-- A change of an inode that keeps its handle.
touch-handle :
    (m : ArrayInodeManager) (i t : ℕ)
    → (get_inode
        (set_inode m i (record (get_inode m i) { modification_time = t }))
        i).allocation_handle
      ≡ (get_inode m i).allocation_handle
unfolding get_inode set_inode
touch-handle m i t =
    let touched = record (get_or m.inodes i blank) { modification_time = t } in
    elim (dec_lt i (length m.inodes)) [
      | yes lt ↦
          ap (λ (n : Inode). n.allocation_handle) (get_or-set_self m.inodes i touched blank lt)
      | no out ↦
          ap (λ (n : Inode). n.allocation_handle)
            (get_or-beyond (set m.inodes i touched) i blank
              (omega (arith, out, length-set m.inodes i touched)))
          ∙ ap (λ (n : Inode). n.allocation_handle)
              (sym (get_or-beyond m.inodes i blank (omega (arith, out))))
    ]

module _ (B : BitVector) (N : NameSequence) (A : AllocationManager) where
  -- The buffer has room for 16 blocks, and the delayed bytes are in it.
  pub record IsBuffered (fs : FileSystem B N A) : Type 0 where
    pub room : length fs.delayed_write_buffer ≡ A.block_size * 16
    pub filled : fs.delayed_write.size ≤ A.block_size * 16

  read_delayed :
      (now : ℕ) (fs : FileSystem B N A) (inode n offset : ℕ)
      → fs.delayed_write.inode ≡ inode
      → fs.delayed_write.offset ≤ offset
      → offset + n ≤ fs.delayed_write.offset + fs.delayed_write.size
      → 0 < n
      → (FileSystem.read_file B N A now fs inode n offset).1
        ≡ take n (drop (offset - fs.delayed_write.offset) fs.delayed_write_buffer)
  unfolding FileSystem.read_file
  read_delayed now fs inode n offset same from to pos =
      let all : min n (fs.delayed_write.size - (offset - fs.delayed_write.offset)) ≡ n =
        omega arith in
      rw all (ground (arith, same))

  read_undelayed :
      (now : ℕ) (fs : FileSystem B N A) (inode n offset : ℕ)
      → fs.delayed_write.size ≡ 0
      → FileSystem.read_file B N A now fs inode n offset
        ≡ FileSystem.read_stored B N A now fs inode n offset
  unfolding FileSystem.read_file
  read_undelayed now fs inode n offset none_left = rw none_left refl

  flush-size :
      (fs : FileSystem B N A) → (FileSystem.flush_delayed_write B N A fs).delayed_write.size ≡ 0
  unfolding FileSystem.flush_delayed_write
  flush-size fs = ground arith

  -- A flush keeps the buffer.
  pub flush-IsBuffered :
      (fs : FileSystem B N A) → IsBuffered fs → IsBuffered (FileSystem.flush_delayed_write B N A fs)
  unfolding FileSystem.flush_delayed_write FileSystem.write_through FileSystem.place_file
  flush-IsBuffered fs v = elim (Bool-cases (fs.delayed_write.size == 0)) [
    | inl empty ↦ rw empty v
    | inr full ↦ rw full (record { room = v.room; filled = omega arith })
  ]

  -- A write that is too large for the buffer is read back from the blocks.
  read-write_large :
      (now later : ℕ) (fs : FileSystem B N A) (inode : ℕ) (buffer : List ℕ) (offset : ℕ)
      → fs.delayed_write.size ≡ 0
      → (leb (A.block_size * 16) (length buffer)) ≡ true
      → (FileSystem.read_file B N A later
          (FileSystem.write_fresh B N A now fs inode buffer offset)
          inode
          (length buffer)
          offset).1
        ≡ buffer
  unfolding FileSystem.write_fresh FileSystem.write_through FileSystem.read_stored
      FileSystem.place_file
  read-write_large now later fs inode buffer offset empty large =
      let placed = FileSystem.place_file B N A fs inode (offset + length buffer) in
      let handle = (get_inode placed.inode_manager inode).allocation_handle in
      rw large (
        ap (λ (r : FileSystem B N A × List ℕ). r.1)
          (read_undelayed later _ inode (length buffer) offset empty)
        ∙ ap
            (λ (h : ℕ).
              A.read (A.write placed.allocation_manager handle buffer offset) h (length buffer)
                offset)
            (touch-handle placed.inode_manager inode now)
        ∙ A.read-write placed.allocation_manager handle buffer offset)

  read-write_fresh :
      (now later : ℕ) (fs : FileSystem B N A) (inode : ℕ) (buffer : List ℕ) (offset : ℕ)
      → IsBuffered fs
      → fs.delayed_write.size ≡ 0
      → 0 < length buffer
      → (FileSystem.read_file B N A later
          (FileSystem.write_fresh B N A now fs inode buffer offset)
          inode
          (length buffer)
          offset).1
        ≡ buffer
  unfolding FileSystem.write_fresh
  read-write_fresh now later fs inode buffer offset v empty pos =
      let n = length buffer in
      elim (Bool-cases (leb (A.block_size * 16) n)) [
        | inl large ↦ read-write_large now later fs inode buffer offset empty large
        | inr small ↦ rw small (
            read_delayed later _ inode n offset refl (omega arith) (omega arith) pos
            ∙ ap (λ (k : ℕ). take n (drop k (memcpy fs.delayed_write_buffer 0 buffer))) {y = 0}
                (omega arith)
            ∙ take-drop-memcpy fs.delayed_write_buffer 0 n buffer (ground (arith, v.room, small))
                refl)
      ]

  -- What write_file has written is what read_file then reads at that place, whether the bytes were
  -- merged with a delayed write, replaced a delayed write that was flushed, were delayed themselves,
  -- or went to the blocks at once.
  pub read_file-write_file :
      (now later : ℕ) (fs : FileSystem B N A) (inode : ℕ) (buffer : List ℕ) (offset : ℕ)
      → IsBuffered fs
      → 0 < length buffer
      → (FileSystem.read_file B N A later
          (FileSystem.write_file B N A now fs inode buffer offset)
          inode
          (length buffer)
          offset).1
        ≡ buffer
  unfolding FileSystem.write_file
  read_file-write_file now later fs inode buffer offset v pos =
      let w = fs.delayed_write in
      let n = length buffer in
      let contiguous =
        w.inode == inode && w.offset + w.size == offset && leb (w.size + n) (A.block_size * 16) in
      elim (Bool-cases (ltb 0 w.size)) [
        | inr empty ↦
            rw empty
              (read-write_fresh now later fs inode buffer offset v (ground (arith, empty)) pos)
        | inl some_left ↦ rw some_left (elim (Bool-cases contiguous) [
          | inr apart ↦ rw apart (
              read-write_fresh now later (FileSystem.flush_delayed_write B N A fs) inode buffer
                offset (flush-IsBuffered fs v) (flush-size fs) pos)
          | inl merged ↦ rw merged (
              read_delayed later _ inode n offset (ground (arith, merged)) (ground (arith, merged))
                (ground (arith, merged)) pos
              ∙ ap (λ (k : ℕ). take n (drop k (memcpy fs.delayed_write_buffer w.size buffer)))
                  {y = w.size} (ground (arith, merged))
              ∙ take-drop-memcpy fs.delayed_write_buffer w.size n buffer
                  (ground (arith, merged, v.room)) refl)
        ])
      ]

  write_fresh-IsBuffered :
      (now : ℕ) (fs : FileSystem B N A) (inode : ℕ) (buffer : List ℕ) (offset : ℕ)
      → IsBuffered fs
      → IsBuffered (FileSystem.write_fresh B N A now fs inode buffer offset)
  unfolding FileSystem.write_fresh FileSystem.write_through FileSystem.place_file
  write_fresh-IsBuffered now fs inode buffer offset v =
      elim (Bool-cases (leb (A.block_size * 16) (length buffer))) [
        | inl large ↦ rw large (record { room = v.room; filled = v.filled })
        | inr small ↦ rw small (record {
          room =
              length-memcpy fs.delayed_write_buffer 0 buffer (ground (arith, v.room, small))
              ∙ v.room;
          filled = ground (arith, small);
        })
      ]

  -- A write keeps the size of the buffer, and leaves at most 16 blocks of delayed bytes in it.
  pub write_file-IsBuffered :
      (now : ℕ) (fs : FileSystem B N A) (inode : ℕ) (buffer : List ℕ) (offset : ℕ)
      → IsBuffered fs
      → IsBuffered (FileSystem.write_file B N A now fs inode buffer offset)
  unfolding FileSystem.write_file
  write_file-IsBuffered now fs inode buffer offset v =
      let w = fs.delayed_write in
      let contiguous =
        w.inode == inode
        && w.offset + w.size == offset
        && leb (w.size + length buffer) (A.block_size * 16) in
      elim (Bool-cases (ltb 0 w.size)) [
        | inr empty ↦ rw empty (write_fresh-IsBuffered now fs inode buffer offset v)
        | inl some_left ↦ rw some_left (elim (Bool-cases contiguous) [
          | inr apart ↦ rw apart (
              write_fresh-IsBuffered now (FileSystem.flush_delayed_write B N A fs) inode buffer
                offset (flush-IsBuffered fs v))
          | inl merged ↦
              let fits : w.size + length buffer ≤ A.block_size * 16 = ground (arith, merged) in
              rw merged (record {
                room =
                    length-memcpy fs.delayed_write_buffer w.size buffer
                      (omega (arith, fits, v.room))
                    ∙ v.room;
                filled = fits;
              })
        ])
      ]

  -- read_file gives as many bytes as it is asked for, from the buffer, the blocks or both.
  pub length-read_file :
      (now : ℕ) (fs : FileSystem B N A) (inode size offset : ℕ)
      → IsBuffered fs
      → length (FileSystem.read_file B N A now fs inode size offset).1 ≡ size
  unfolding FileSystem.read_file FileSystem.read_stored
  length-read_file now fs inode size offset v =
      let w = fs.delayed_write in
      let at = offset - w.offset in
      let n = min size (w.size - at) in
      let bytes = take n (drop at fs.delayed_write_buffer) in
      let node = get_inode fs.inode_manager inode in
      let stored = A.read fs.allocation_manager node.allocation_handle (size - n) (offset + n) in
      ground (
        arith,
        v.room,
        v.filled,
        length-take n (drop at fs.delayed_write_buffer),
        length-drop at fs.delayed_write_buffer,
        length-append bytes stored,
        A.length-read fs.allocation_manager node.allocation_handle (size - n) (offset + n),
        A.length-read fs.allocation_manager node.allocation_handle size offset,
      )

  -- A write that is only delayed leaves the tree and the inodes, with the sizes of the files.
  pub write_delayed :
      (now : ℕ) (fs : FileSystem B N A) (inode : ℕ) (buffer : List ℕ) (offset : ℕ)
      → fs.delayed_write.size ≡ 0
      → length buffer < A.block_size * 16
      → ((FileSystem.write_file B N A now fs inode buffer offset).flouds ≡ fs.flouds)
        × ((FileSystem.write_file B N A now fs inode buffer offset).inode_manager
            ≡ fs.inode_manager)
  unfolding FileSystem.write_file FileSystem.write_fresh
  write_delayed now fs inode buffer offset idle small =
      let fits : leb (A.block_size * 16) (length buffer) ≡ false = ground (arith, small) in
      rw (idle, fits) (refl, refl)
