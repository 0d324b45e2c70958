-- ===== src/Serial/Nodes.antt =====
-- How the inodes are saved (src/fsm/inode/array_inode.cpp). Only a regular file (S_ISREG of its mode)
-- has its handle and size saved.
use Prim.Native.Nat.{bit_and}
use succinct_filesystem.Base.{
  ℕ, suc, ◌+◌, ◌^◌, ◌<◌, ◌≡◌, refl, Bool, true, false, List, [], ◌∷◌, ◌++◌, Option, some, map, ap,
  ◌>>=◌, if◌then◌else◌, ◌==◌, arith, Bool-cases, inl, inr,
}
use mathlib.Core.List.{append_assoc}
use succinct_filesystem.Base.Seq.{length, length-append}
use succinct_filesystem.Inodes.{Inode, ArrayInodeManager}
use succinct_filesystem.Serial.Format.{
  Format, All, to_bytes, from_bytes, from_bytes-to_bytes, length-to_bytes, size_all, write_all,
  write_all-same, size_all-same, sequence-same, serialize_sequence, deserialize_sequence,
  length-serialize_sequence, sequence_lem,
}

-- `S_ISREG(mode)`
unfoldable pub s_isreg : ℕ → Bool
s_isreg mode = bit_and mode 0xf000 == 0x8000

pub serialize_place : Inode → List ℕ
serialize_place inode =
    if s_isreg inode.mode then to_bytes 8 inode.allocation_handle ++ to_bytes 8 inode.size else []

pub serialize_inode : Inode → List ℕ
serialize_inode inode =
    to_bytes 4 inode.mode
    ++ (to_bytes 8 inode.modification_time
        ++ (to_bytes 8 inode.access_time
            ++ (to_bytes 8 inode.creation_time ++ serialize_place inode)))

-- Into an inode that `resize` has made, whose handle and size are 0.
pub deserialize_place : ℕ → List ℕ → Option (ℕ × ℕ × List ℕ)
deserialize_place mode bytes =
    let read = from_bytes 8 bytes >>= λ (handle : ℕ × List ℕ).
    from_bytes 8 handle.1 >>= λ (size : ℕ × List ℕ). some (handle.0, size.0, size.1) in
    if s_isreg mode then read else some (0, 0, bytes)

pub deserialize_inode : List ℕ → Option (Inode × List ℕ)
deserialize_inode bytes = from_bytes 4 bytes >>= λ (mode : ℕ × List ℕ).
    from_bytes 8 mode.1 >>= λ (modified : ℕ × List ℕ).
    from_bytes 8 modified.1 >>= λ (accessed : ℕ × List ℕ).
    from_bytes 8 accessed.1 >>= λ (create_time : ℕ × List ℕ).
    deserialize_place mode.0 create_time.1 >>= λ (place : ℕ × ℕ × List ℕ). some (
      record {
        allocation_handle = place.0;
        size = place.1;
        mode = mode.0;
        modification_time = modified.0;
        access_time = accessed.0;
        creation_time = create_time.0;
      },
      place.2,
    )

pub size_inode : Inode → ℕ
size_inode inode = if s_isreg inode.mode then 44 else 28

-- The fields fit their types, and what is no regular file has no bytes.
pub record IsInode (inode : Inode) : Type 0 where
  pub mode_fits : inode.mode < 2 ^ 32
  pub modification_fits : inode.modification_time < 2 ^ 64
  pub access_fits : inode.access_time < 2 ^ 64
  pub creation_fits : inode.creation_time < 2 ^ 64
  pub handle_fits : inode.allocation_handle < 2 ^ 64
  pub size_fits : inode.size < 2 ^ 64
  pub unplaced : s_isreg inode.mode ≡ false → (inode.allocation_handle ≡ 0) × (inode.size ≡ 0)

length-serialize_place :
    (inode : Inode) → length (serialize_place inode) ≡ (if s_isreg inode.mode then 16 else 0)
unfolding serialize_place
length-serialize_place inode = elim (Bool-cases (s_isreg inode.mode)) [
  | inl regular ↦ rw regular (
      omega (
        arith,
        length-append (to_bytes 8 inode.allocation_handle) (to_bytes 8 inode.size),
        length-to_bytes 8 inode.allocation_handle,
        length-to_bytes 8 inode.size,
      ))
  | inr other ↦ rw other refl
]

pub length-serialize_inode :
    (inode : Inode) → IsInode inode → length (serialize_inode inode) ≡ size_inode inode
unfolding serialize_inode size_inode
length-serialize_inode inode v =
    let place = serialize_place inode in
    let t3 = to_bytes 8 inode.creation_time in
    let t2 = to_bytes 8 inode.access_time in
    let t1 = to_bytes 8 inode.modification_time in
    ground (
      arith,
      length-append (to_bytes 4 inode.mode) (t1 ++ (t2 ++ (t3 ++ place))),
      length-append t1 (t2 ++ (t3 ++ place)),
      length-append t2 (t3 ++ place),
      length-append t3 place,
      length-to_bytes 4 inode.mode,
      length-to_bytes 8 inode.creation_time,
      length-to_bytes 8 inode.access_time,
      length-to_bytes 8 inode.modification_time,
      length-serialize_place inode,
    )

place_back :
    (inode : Inode) (rest : List ℕ)
    → IsInode inode
    → deserialize_place inode.mode (serialize_place inode ++ rest)
      ≡ some (inode.allocation_handle, inode.size, rest)
unfolding deserialize_place serialize_place
place_back inode rest v = elim (Bool-cases (s_isreg inode.mode)) [
  | inl regular ↦ rw regular (
      rw
        (
          append_assoc (to_bytes 8 inode.allocation_handle) (to_bytes 8 inode.size) rest,
          from_bytes-to_bytes 8 inode.allocation_handle (to_bytes 8 inode.size ++ rest)
              v.handle_fits,
          from_bytes-to_bytes 8 inode.size rest v.size_fits,
        )
        refl)
  | inr other ↦ rw (other, (v.unplaced other).0, (v.unplaced other).1) refl
]

pub inode_back :
    (inode : Inode) (rest : List ℕ)
    → IsInode inode
    → deserialize_inode (serialize_inode inode ++ rest) ≡ some (inode, rest)
unfolding deserialize_inode serialize_inode
inode_back inode rest v =
    let place = serialize_place inode in
    let t3 = to_bytes 8 inode.creation_time in
    let t2 = to_bytes 8 inode.access_time in
    let t1 = to_bytes 8 inode.modification_time in
    rw
      (
        append_assoc (to_bytes 4 inode.mode) (t1 ++ (t2 ++ (t3 ++ place))) rest,
        append_assoc t1 (t2 ++ (t3 ++ place)) rest,
        append_assoc t2 (t3 ++ place) rest,
        append_assoc t3 place rest,
        from_bytes-to_bytes 4 inode.mode (t1 ++ (t2 ++ (t3 ++ (place ++ rest)))) v.mode_fits,
        from_bytes-to_bytes 8 inode.modification_time (t2 ++ (t3 ++ (place ++ rest)))
            v.modification_fits,
        from_bytes-to_bytes 8 inode.access_time (t3 ++ (place ++ rest)) v.access_fits,
        from_bytes-to_bytes 8 inode.creation_time (place ++ rest) v.creation_fits,
        place_back inode rest v,
      )
      refl

abbrev pub inode_format : Format Inode
inode_format = record {
  IsValid = IsInode;
  serialize = serialize_inode;
  deserialize = deserialize_inode;
  get_serialized_size = size_inode;
  length-serialize = length-serialize_inode;
  deserialize-serialize = inode_back;
}

-- The fields fit their types.
pub record Fits (inode : Inode) : Type 0 where
  pub mode_fits : inode.mode < 2 ^ 32
  pub modification_fits : inode.modification_time < 2 ^ 64
  pub access_fits : inode.access_time < 2 ^ 64
  pub creation_fits : inode.creation_time < 2 ^ 64
  pub handle_fits : inode.allocation_handle < 2 ^ 64
  pub size_fits : inode.size < 2 ^ 64

-- What is left of an inode: only a regular file keeps its handle and size.
unfoldable pub as_saved : Inode → Inode
as_saved inode =
    if s_isreg inode.mode then inode else record inode { allocation_handle = 0; size = 0 }

pub serialize_inodes : ArrayInodeManager → List ℕ
serialize_inodes m = serialize_sequence inode_format m.inodes

pub deserialize_inodes : List ℕ → Option (ArrayInodeManager × List ℕ)
deserialize_inodes bytes = deserialize_sequence inode_format bytes >>= λ (r : List Inode × List ℕ).
    some (record { inodes = r.0 }, r.1)

pub size_inodes : ArrayInodeManager → ℕ
size_inodes m = 8 + size_all inode_format m.inodes

as_saved-regular : (inode : Inode) → s_isreg inode.mode ≡ true → as_saved inode ≡ inode
unfolding as_saved
as_saved-regular inode regular = rw regular refl

as_saved-other :
    (inode : Inode)
    → s_isreg inode.mode ≡ false
    → as_saved inode ≡ record inode { allocation_handle = 0; size = 0 }
unfolding as_saved
as_saved-other inode other = rw other refl

as_saved_lem :
    (inode : Inode)
    → (serialize_inode (as_saved inode) ≡ serialize_inode inode)
      × (size_inode (as_saved inode) ≡ size_inode inode)
unfolding serialize_inode serialize_place size_inode
as_saved_lem inode = elim (Bool-cases (s_isreg inode.mode)) [
  | inl regular ↦ rw (as_saved-regular inode regular) (refl, refl)
  | inr other ↦ rw (as_saved-other inode other) (rw other (refl, refl))
]

as_saved-IsInode : (inode : Inode) → Fits inode → IsInode (as_saved inode)
as_saved-IsInode inode v = elim (Bool-cases (s_isreg inode.mode)) [
  | inl regular ↦ rw (as_saved-regular inode regular) (record {
    mode_fits = v.mode_fits;
    modification_fits = v.modification_fits;
    access_fits = v.access_fits;
    creation_fits = v.creation_fits;
    handle_fits = v.handle_fits;
    size_fits = v.size_fits;
    unplaced = λ other. cc (regular, other);
  })
  | inr other ↦ rw (as_saved-other inode other) (record {
    mode_fits = v.mode_fits;
    modification_fits = v.modification_fits;
    access_fits = v.access_fits;
    creation_fits = v.creation_fits;
    handle_fits = omega arith;
    size_fits = omega arith;
    unplaced = λ _. (refl, refl);
  })
]

saved_fields :
    (inodes : List Inode)
    → All Fits inodes
    → All IsInode (map as_saved inodes)
      × (length (map as_saved inodes) ≡ length inodes)
      × (write_all inode_format (map as_saved inodes) ≡ write_all inode_format inodes)
      × (size_all inode_format (map as_saved inodes) ≡ size_all inode_format inodes)
saved_fields [] v = (tt, refl, refl, refl)
saved_fields (inode ∷ inodes) v =
    let (fit, count, bytes, size) = saved_fields inodes v.1 in
    let same = as_saved_lem inode in
    (
      (as_saved-IsInode inode v.0, fit),
      ap suc count,
      write_all-same inode_format _ inode _ inodes same.0 bytes,
      size_all-same inode_format _ inode _ inodes same.1 size,
    )

-- get_serialized_size announces the number of bytes that serialize writes. What is read back from
-- them, whatever stands behind them, are the inodes, in their order, each with all that it had if its
-- mode is that of a regular file (S_ISREG), and with handle and size 0 if not. The fields are those
-- of their C++ types, and there are fewer than 2^64 inodes.
pub inodes_lem :
    (m : ArrayInodeManager) (rest : List ℕ)
    → length m.inodes < 2 ^ 64
    → All Fits m.inodes
    → (length (serialize_inodes m) ≡ size_inodes m)
      × (deserialize_inodes (serialize_inodes m ++ rest)
          ≡ some (record { inodes = map as_saved m.inodes }, rest))
unfolding serialize_inodes deserialize_inodes size_inodes
inodes_lem m rest few v =
    let (fit, count, bytes, size) = saved_fields m.inodes v in
    let saved = map as_saved m.inodes in
    let same : serialize_sequence inode_format saved ≡ serialize_sequence inode_format m.inodes =
      sequence-same inode_format saved m.inodes count bytes in
    (
      rw (← same, ← size) (length-serialize_sequence inode_format saved fit),
      rw (← same, sequence_lem inode_format saved rest (omega (arith, few, count)) fit) refl,
    )
