-- ===== src/Fuse/Handlers/Tests.antt =====
-- The theorems on the FUSE handlers at a small file system.
use succinct_filesystem.Base.{
  ℕ, ◌+◌, ◌-◌, ◌^◌, ◌≡◌, ◌≢◌, inr, refl, ap, true, false, List, [], ◌∷◌, some, none, arith, min,
}
use succinct_filesystem.Base.Seq.{length}
use succinct_filesystem.BitVector.Array.Laws.{array_bitvector}
use succinct_filesystem.NameSequence.Array.{array_name_sequence}
use succinct_filesystem.Delta.{fresh, replay, stable_inode_to_flouds_inode}
use succinct_filesystem.Inodes.{ArrayInodeManager, get_inode}
use succinct_filesystem.Allocation.{AllocationManager}
use succinct_filesystem.Flouds.{Flouds}
use succinct_filesystem.Flouds.Sample.{bits, kinds, labels, sample-IsFile}
use succinct_filesystem.FileSystem.Sample.{
  manager, start, start-IsBuffered, start-IsAligned, one_byte,
}
use succinct_filesystem.Fuse
use succinct_filesystem.Fuse.{
  Session, Reply, Entry, Errno, err, estale, eio, done, bytes, written, entry, created,
}
use succinct_filesystem.Fuse.Handlers
use succinct_filesystem.Fuse.Handlers.{Request, open_file, read, write, mkdir, create}
use succinct_filesystem.Fuse.Handlers.Errors.{stale_lem, refused_kept}
use succinct_filesystem.Fuse.Handlers.Files.{read-length, delayed_write_unread}
use succinct_filesystem.Fuse.Handlers.Nodes.{Made, add_request}

abbrev session : Session array_bitvector array_name_sequence manager
session = record { file_system = start; delta_stabilization = fresh }

abbrev run :
    Session array_bitvector array_name_sequence manager
    → Request
    → Session array_bitvector array_name_sequence manager × Reply
run s r =
    Handlers.handle array_bitvector array_name_sequence manager
      (one_byte (Flouds array_bitvector array_name_sequence)) (one_byte ArrayInodeManager)
      (one_byte (AllocationManager.Carrier manager)) (λ name. 24) 7 s r

-- A number of a later point of the log than there is.
abbrev future : ℕ
future = 2 ^ 48 + 1

future_stale : stable_inode_to_flouds_inode fresh future ≡ none
unfolding stable_inode_to_flouds_inode
future_stale = refl

file_resolved : stable_inode_to_flouds_inode fresh 2 ≡ some 1
unfolding stable_inode_to_flouds_inode replay
file_resolved = refl

folder_resolved : stable_inode_to_flouds_inode fresh 3 ≡ some 2
unfolding stable_inode_to_flouds_inode replay
folder_resolved = refl

refused : (run session (open_file future)).1 ≡ err estale
refused =
    ap (λ (r : Session array_bitvector array_name_sequence manager × Reply). r.1)
      (stale_lem array_bitvector array_name_sequence manager
        (one_byte (Flouds array_bitvector array_name_sequence)) (one_byte ArrayInodeManager)
        (one_byte (AllocationManager.Carrier manager)) (λ name. 24) 7 session (open_file future)
        future refl future_stale)

not_eio : estale ≢ eio
not_eio e = cc

not_done : estale ≢ done
not_done e = cc

refused_kept_example : (run session (open_file future)).0 ≡ session
refused_kept_example =
    refused_kept array_bitvector array_name_sequence manager
      (one_byte (Flouds array_bitvector array_name_sequence)) (one_byte ArrayInodeManager)
      (one_byte (AllocationManager.Carrier manager)) (λ name. 24) 7 session (open_file future)
      estale refused not_eio not_done

read-length_example :
    (s' : Session array_bitvector array_name_sequence manager) × (result : List ℕ) × (run session
        (read 2 10 0)
      ≡ (s', bytes result))
    × (length result
        ≡ min 10 ((Fuse.inode_of array_bitvector array_name_sequence manager session 1).size - 0))
read-length_example =
    read-length array_bitvector array_name_sequence manager
      (one_byte (Flouds array_bitvector array_name_sequence)) (one_byte ArrayInodeManager)
      (one_byte (AllocationManager.Carrier manager)) (λ name. 24) 7 session 2 1 10 0
      start-IsBuffered file_resolved sample-IsFile

empty_file : (Fuse.inode_of array_bitvector array_name_sequence manager session 1).size ≡ 0
unfolding get_inode
empty_file = refl

delayed_write_unread_example :
    (s' : Session array_bitvector array_name_sequence manager) × (run session
        (write 2 (5 ∷ 6 ∷ []) 0)
      ≡ (s', written 2))
    × ((run s' (read 2 2 0)).1 ≡ bytes [])
delayed_write_unread_example =
    delayed_write_unread array_bitvector array_name_sequence manager
      (one_byte (Flouds array_bitvector array_name_sequence)) (one_byte ArrayInodeManager)
      (one_byte (AllocationManager.Carrier manager)) (λ name. 24) 7 7 session 2 1 (5 ∷ 6 ∷ []) 2 0
      refl file_resolved sample-IsFile empty_file (omega arith)

add_request_example :
    ((s' : Session array_bitvector array_name_sequence manager) × (n : ℕ) × (e : Entry) × (run
          session
          (mkdir 3 (b'c' ∷ []) 0x1ed)
        ≡ (s', entry e))
      × Made array_bitvector array_name_sequence manager
          (one_byte (Flouds array_bitvector array_name_sequence))
          (one_byte ArrayInodeManager)
          (one_byte (AllocationManager.Carrier manager))
          (λ name. 24)
          7
          session
          s'
          labels
          2
          (b'c' ∷ [])
          true
          0x1ed
          n
          e)
    × ((s' : Session array_bitvector array_name_sequence manager) × (n : ℕ) × (e : Entry) × (run
            session
            (create 3 (b'c' ∷ []) 0x1ed)
          ≡ (s', created e))
        × Made array_bitvector array_name_sequence manager
            (one_byte (Flouds array_bitvector array_name_sequence))
            (one_byte ArrayInodeManager)
            (one_byte (AllocationManager.Carrier manager))
            (λ name. 24)
            7
            session
            s'
            labels
            2
            (b'c' ∷ [])
            false
            0x1ed
            n
            e)
add_request_example =
    add_request array_bitvector array_name_sequence manager
      (one_byte (Flouds array_bitvector array_name_sequence)) (one_byte ArrayInodeManager)
      (one_byte (AllocationManager.Carrier manager)) (λ name. 24) 7 session bits kinds labels 3 2
      (b'c' ∷ []) 0x1ed start-IsAligned folder_resolved (inr refl)
