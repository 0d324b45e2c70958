-- ===== src/Inodes/Hierarchy/Image.antt =====
-- The bytes of an array of inodes in memory, which hierarchy_inode.cpp writes to a chunk
-- (src/fsm/inode/inode.hpp): six fields, with four bytes of padding behind the mode, zeros here.
use succinct_filesystem.Base.{
  ℕ, ◌*◌, ◌^◌, ◌<◌, ◌≡◌, refl, List, [], ◌∷◌, ◌++◌, Option, none, some, ◌>>=◌, arith, sym, ap, ◌∙◌,
}
use mathlib.Core.List.{append_assoc, append-nil}
use succinct_filesystem.Base.Seq.{length, length-append, replicate, length-replicate}
use succinct_filesystem.Inodes.{Inode, blank}
use succinct_filesystem.Serial.Format.{
  Format, All, to_bytes, from_bytes, from_bytes-to_bytes, length-to_bytes, write_all, read_all,
  size_all, length-write_all, read_all-write_all, length-read_all,
}

-- `sizeof(Inode)`
abbrev pub inode_size : ℕ
inode_size = 48

pub image : Inode → List ℕ
image inode =
    to_bytes 8 inode.allocation_handle
    ++ (to_bytes 8 inode.size
        ++ (to_bytes 4 inode.mode
            ++ (to_bytes 4 0
                ++ (to_bytes 8 inode.modification_time
                    ++ (to_bytes 8 inode.access_time ++ to_bytes 8 inode.creation_time)))))

pub read_image : List ℕ → Option (Inode × List ℕ)
read_image bytes = from_bytes 8 bytes >>= λ (handle : ℕ × List ℕ).
    from_bytes 8 handle.1 >>= λ (size : ℕ × List ℕ). from_bytes 4 size.1 >>= λ (mode : ℕ × List ℕ).
    from_bytes 4 mode.1 >>= λ (padding : ℕ × List ℕ).
    from_bytes 8 padding.1 >>= λ (modified : ℕ × List ℕ).
    from_bytes 8 modified.1 >>= λ (accessed : ℕ × List ℕ).
    from_bytes 8 accessed.1 >>= λ (created : ℕ × List ℕ). some (
      record {
        allocation_handle = handle.0;
        size = size.0;
        mode = mode.0;
        modification_time = modified.0;
        access_time = accessed.0;
        creation_time = created.0;
      },
      created.1,
    )

-- The fields fit their types.
pub record Fits (inode : Inode) : Type 0 where
  pub handle_fits : inode.allocation_handle < 2 ^ 64
  pub size_fits : inode.size < 2 ^ 64
  pub mode_fits : inode.mode < 2 ^ 32
  pub modification_fits : inode.modification_time < 2 ^ 64
  pub access_fits : inode.access_time < 2 ^ 64
  pub creation_fits : inode.creation_time < 2 ^ 64

pub blank-Fits : Fits blank
blank-Fits = record {
  handle_fits = omega arith;
  size_fits = omega arith;
  mode_fits = omega arith;
  modification_fits = omega arith;
  access_fits = omega arith;
  creation_fits = omega arith;
}

pub length-image : (inode : Inode) → Fits inode → length (image inode) ≡ inode_size
unfolding image
length-image inode v =
    let t6 = to_bytes 8 inode.creation_time in
    let t5 = to_bytes 8 inode.access_time in
    let t4 = to_bytes 8 inode.modification_time in
    let t3 = to_bytes 4 0 in
    let t2 = to_bytes 4 inode.mode in
    let t1 = to_bytes 8 inode.size in
    let t0 = to_bytes 8 inode.allocation_handle in
    omega (
      arith,
      length-append t0 (t1 ++ (t2 ++ (t3 ++ (t4 ++ (t5 ++ t6))))),
      length-append t1 (t2 ++ (t3 ++ (t4 ++ (t5 ++ t6)))),
      length-append t2 (t3 ++ (t4 ++ (t5 ++ t6))),
      length-append t3 (t4 ++ (t5 ++ t6)),
      length-append t4 (t5 ++ t6),
      length-append t5 t6,
      length-to_bytes 8 inode.allocation_handle,
      length-to_bytes 8 inode.size,
      length-to_bytes 4 inode.mode,
      length-to_bytes 4 0,
      length-to_bytes 8 inode.modification_time,
      length-to_bytes 8 inode.access_time,
      length-to_bytes 8 inode.creation_time,
    )

pub image_back :
    (inode : Inode) (rest : List ℕ)
    → Fits inode
    → read_image (image inode ++ rest) ≡ some (inode, rest)
unfolding read_image image
image_back inode rest v =
    let t6 = to_bytes 8 inode.creation_time in
    let t5 = to_bytes 8 inode.access_time in
    let t4 = to_bytes 8 inode.modification_time in
    let t3 = to_bytes 4 0 in
    let t2 = to_bytes 4 inode.mode in
    let t1 = to_bytes 8 inode.size in
    let t0 = to_bytes 8 inode.allocation_handle in
    rw
      (
        append_assoc t0 (t1 ++ (t2 ++ (t3 ++ (t4 ++ (t5 ++ t6))))) rest,
        append_assoc t1 (t2 ++ (t3 ++ (t4 ++ (t5 ++ t6)))) rest,
        append_assoc t2 (t3 ++ (t4 ++ (t5 ++ t6))) rest,
        append_assoc t3 (t4 ++ (t5 ++ t6)) rest,
        append_assoc t4 (t5 ++ t6) rest,
        append_assoc t5 t6 rest,
        from_bytes-to_bytes 8 inode.allocation_handle
            (t1 ++ (t2 ++ (t3 ++ (t4 ++ (t5 ++ (t6 ++ rest)))))) v.handle_fits,
        from_bytes-to_bytes 8 inode.size (t2 ++ (t3 ++ (t4 ++ (t5 ++ (t6 ++ rest))))) v.size_fits,
        from_bytes-to_bytes 4 inode.mode (t3 ++ (t4 ++ (t5 ++ (t6 ++ rest)))) v.mode_fits,
        from_bytes-to_bytes 4 0 (t4 ++ (t5 ++ (t6 ++ rest))) (omega arith),
        from_bytes-to_bytes 8 inode.modification_time (t5 ++ (t6 ++ rest)) v.modification_fits,
        from_bytes-to_bytes 8 inode.access_time (t6 ++ rest) v.access_fits,
        from_bytes-to_bytes 8 inode.creation_time rest v.creation_fits,
      )
      refl

abbrev pub image_format : Format Inode
image_format = record {
  IsValid = Fits;
  serialize = image;
  deserialize = read_image;
  get_serialized_size = λ inode. inode_size;
  length-serialize = length-image;
  deserialize-serialize = image_back;
}

-- `(char*) inodes.data()`
pub to_memory : List Inode → List ℕ
to_memory inodes = write_all image_format inodes

read_inodes : ℕ → Option (List Inode × List ℕ) → List Inode
read_inodes num_inodes none = replicate num_inodes blank
read_inodes num_inodes (some r) = r.0

-- `num_inodes` inodes whose bytes have been read. There are as many bytes as they take.
pub from_memory : ℕ → List ℕ → List Inode
from_memory num_inodes bytes = read_inodes num_inodes (read_all image_format num_inodes bytes)

size_all-image : (xs : List Inode) → size_all image_format xs ≡ length xs * inode_size
unfolding size_all
size_all-image [] = refl
size_all-image (x ∷ xs) = omega (arith, size_all-image xs)

pub length-to_memory :
    (xs : List Inode) → All Fits xs → length (to_memory xs) ≡ length xs * inode_size
unfolding to_memory
length-to_memory xs v = omega (arith, length-write_all image_format xs v, size_all-image xs)

pub from_memory-to_memory :
    (xs : List Inode) → All Fits xs → from_memory (length xs) (to_memory xs) ≡ xs
unfolding from_memory to_memory read_inodes
from_memory-to_memory xs v = ap (read_inodes (length xs)) (
    ap (read_all image_format (length xs)) (sym (append-nil (write_all image_format xs)))
    ∙ read_all-write_all image_format xs [] v)

length-read_inodes :
    (n : ℕ) (bytes : List ℕ) (r : Option (List Inode × List ℕ))
    → read_all image_format n bytes ≡ r
    → length (read_inodes n r) ≡ n
unfolding read_inodes
length-read_inodes n bytes none e = length-replicate n blank
length-read_inodes n bytes (some r) e = length-read_all image_format n bytes r e

pub length-from_memory : (n : ℕ) (bytes : List ℕ) → length (from_memory n bytes) ≡ n
unfolding from_memory
length-from_memory n bytes = length-read_inodes n bytes (read_all image_format n bytes) refl
