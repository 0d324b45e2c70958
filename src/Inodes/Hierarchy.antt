-- ===== src/Inodes/Hierarchy.antt =====
-- HierarchyInodeManagerStrategy (src/fsm/inode/hierarchy_inode.cpp) over any AllocationManager: the
-- inodes lie in chunks, each in an allocation of its own, of which one is cached. A pointer to a
-- chunk is its index, and the pointer to an inode that an operation returns is its index in the
-- cached chunk; `write_inode` is a write through it. Indices out of range are undefined in C++; no
-- theorem is about them.
pub mod Image
pub mod View
pub mod Load
pub mod Cache
pub mod Get
pub mod Cached
pub mod Split
pub mod Insert
pub mod Insertion
pub mod Removal
pub mod Lost
pub mod Saved
mod Tests
use succinct_filesystem.Base.{
  ℕ, zero, suc, ◌+◌, ◌-◌, ◌*◌, Bool, true, false, ◌&&◌, List, [], ◌∷◌, ◌++◌, Option, none, some,
  ltb, leb, ◌==◌, if◌then◌else◌, ◌>>=◌,
}
use succinct_filesystem.Base.Seq.{length, get_or, set, insert_at, remove_at, take, drop}
use succinct_filesystem.Allocation.{AllocationManager}
use succinct_filesystem.Inodes.{Inode, blank}
use succinct_filesystem.Serial.Format.{to_bytes, from_bytes}
use Image.{inode_size, to_memory, from_memory}

-- `CHUNK_SIZE`
abbrev pub chunk_size : ℕ
chunk_size = 85

pub record InodeChunk : Type 0 where
  pub handle : ℕ
  pub start_inode : ℕ
  pub num_inodes : ℕ

abbrev pub no_chunk : InodeChunk
no_chunk = record { handle = 0; start_inode = 0; num_inodes = 0 }

pub record HierarchyInodeManager (A : AllocationManager) : Type 0 where
  pub chunks : List InodeChunk
  pub cache_handle : Option ℕ
  pub cached_inodes : List Inode
  pub cache_dirty : Bool
  pub allocation_manager : A.Carrier

-- The chunks from index `k` on are searched.
pub find_chunk : ℕ → List InodeChunk → ℕ → Option ℕ
find_chunk k [] inode = none
find_chunk k (c ∷ cs) inode =
    let later = find_chunk (suc k) cs inode in
    if leb c.start_inode inode && ltb inode (c.start_inode + c.num_inodes) then some k else later

-- The index of the chunk that an inode is inserted into.
pub insertion_chunk : List InodeChunk → ℕ → ℕ
insertion_chunk chunks inode = elim (find_chunk 0 chunks inode) [
  | none ↦ length chunks - 1
  | some k ↦ k
]

-- `shift_starts` with the deltas 1 and -1, on the chunks behind an index.
pub shift_starts_up : List InodeChunk → List InodeChunk
shift_starts_up [] = []
shift_starts_up (c ∷ cs) = record c { start_inode = c.start_inode + 1 } ∷ shift_starts_up cs

pub shift_starts_down : List InodeChunk → List InodeChunk
shift_starts_down [] = []
shift_starts_down (c ∷ cs) = record c { start_inode = c.start_inode - 1 } ∷ shift_starts_down cs

-- The chunks as they are saved: three numbers of 8 bytes each.
pub serialize_chunk : InodeChunk → List ℕ
serialize_chunk c = to_bytes 8 c.handle ++ (to_bytes 8 c.start_inode ++ to_bytes 8 c.num_inodes)

pub deserialize_chunk : List ℕ → Option (InodeChunk × List ℕ)
deserialize_chunk bytes = from_bytes 8 bytes >>= λ (handle : ℕ × List ℕ).
    from_bytes 8 handle.1 >>= λ (start : ℕ × List ℕ). from_bytes 8 start.1 >>= λ (num : ℕ × List ℕ).
    some (record { handle = handle.0; start_inode = start.0; num_inodes = num.0 }, num.1)

pub serialize_chunks : List InodeChunk → List ℕ
serialize_chunks [] = []
serialize_chunks (c ∷ cs) = serialize_chunk c ++ serialize_chunks cs

pub deserialize_chunks : ℕ → List ℕ → Option (List InodeChunk × List ℕ)
deserialize_chunks zero bytes = some ([], bytes)
deserialize_chunks (suc n) bytes = deserialize_chunk bytes >>= λ (r : InodeChunk × List ℕ).
    deserialize_chunks n r.1 >>= λ (s : List InodeChunk × List ℕ). some (r.0 ∷ s.0, s.1)

module _ (A : AllocationManager) where
  pub create_hierarchy_inode_manager : A.Carrier → HierarchyInodeManager A
  create_hierarchy_inode_manager a = record {
    chunks = [];
    cache_handle = none;
    cached_inodes = [];
    cache_dirty = false;
    allocation_manager = a;
  }

  pub flush_cache : HierarchyInodeManager A → HierarchyInodeManager A
  flush_cache m = elim m.cache_handle [
    | none ↦ m
    | some handle ↦
        if m.cache_dirty
        then record m {
          allocation_manager = A.write m.allocation_manager handle (to_memory m.cached_inodes) 0;
          cache_dirty = false;
        }
        else m
  ]

  -- The part of load_chunk behind the test whether the chunk is cached already.
  pub fetch_chunk : HierarchyInodeManager A → InodeChunk → HierarchyInodeManager A
  fetch_chunk m chunk =
      let flushed = flush_cache m in
      record flushed {
        cached_inodes =
            from_memory chunk.num_inodes
              (A.read flushed.allocation_manager chunk.handle (chunk.num_inodes * inode_size) 0);
        cache_handle = some chunk.handle;
        cache_dirty = false;
      }

  pub load_chunk : HierarchyInodeManager A → InodeChunk → HierarchyInodeManager A
  load_chunk m chunk = elim m.cache_handle [
    | none ↦ fetch_chunk m chunk
    | some handle ↦ if handle == chunk.handle then m else fetch_chunk m chunk
  ]

  -- `none` is the null pointer.
  pub get_inode : HierarchyInodeManager A → ℕ → HierarchyInodeManager A × Option ℕ
  get_inode m inode = elim (find_chunk 0 m.chunks inode) [
    | none ↦ (m, none)
    | some k ↦
        let chunk = get_or m.chunks k no_chunk in
        (load_chunk m chunk, some (inode - chunk.start_inode))
  ]

  -- What a returned pointer points to, and a write through it.
  pub read_inode : HierarchyInodeManager A → ℕ → Inode
  read_inode m p = get_or m.cached_inodes p blank

  pub write_inode : HierarchyInodeManager A → ℕ → Inode → HierarchyInodeManager A
  write_inode m p node = record m { cached_inodes = set m.cached_inodes p node }

  pub first_chunk : HierarchyInodeManager A → HierarchyInodeManager A × ℕ
  first_chunk m =
      let given = A.allocate m.allocation_manager (chunk_size * inode_size) in
      (
        record {
          chunks = record { handle = given.1; start_inode = 0; num_inodes = 1 } ∷ m.chunks;
          cache_handle = some given.1;
          cached_inodes = blank ∷ [];
          cache_dirty = false;
          allocation_manager = A.write given.0 given.1 (to_memory (blank ∷ [])) 0;
        },
        0,
      )

  -- `chunk`, of index `k`, is cached and has one inode too many: it goes to a new chunk.
  pub split_chunk : HierarchyInodeManager A → ℕ → InodeChunk → ℕ → HierarchyInodeManager A × ℕ
  split_chunk m k chunk local_index =
      let right_data = drop chunk_size m.cached_inodes in
      let left_data = take chunk_size m.cached_inodes in
      let left_chunk : InodeChunk = record chunk { num_inodes = chunk_size } in
      let written = A.write m.allocation_manager chunk.handle (to_memory left_data) 0 in
      let given = A.allocate written (chunk_size * inode_size) in
      let new_chunk : InodeChunk = record {
        handle = given.1;
        start_inode = chunk.start_inode + chunk_size;
        num_inodes = length right_data;
      } in
      let done = record m {
        chunks = insert_at (set m.chunks k left_chunk) (k + 1) new_chunk;
        cached_inodes = left_data;
        cache_dirty = false;
        allocation_manager = A.write given.0 given.1 (to_memory right_data) 0;
      } in
      if ltb local_index chunk_size then (done, local_index) else (
        record done { cached_inodes = right_data; cache_handle = some given.1 },
        local_index - chunk_size,
      )

  -- The insertion into `chunk`, of index `k`, and the shift of those behind it.
  pub insert_cached : HierarchyInodeManager A → ℕ → InodeChunk → ℕ → HierarchyInodeManager A
  insert_cached m k chunk inode =
      let loaded = load_chunk m chunk in
      let counted = set loaded.chunks k (record chunk { num_inodes = chunk.num_inodes + 1 }) in
      record loaded {
        cached_inodes = insert_at loaded.cached_inodes (inode - chunk.start_inode) blank;
        cache_dirty = true;
        chunks = take (k + 1) counted ++ shift_starts_up (drop (k + 1) counted);
      }

  pub insert_into : HierarchyInodeManager A → ℕ → InodeChunk → ℕ → HierarchyInodeManager A × ℕ
  insert_into m k chunk inode =
      let local_index = inode - chunk.start_inode in
      let inserted = insert_cached m k chunk inode in
      if leb (chunk.num_inodes + 1) chunk_size
      then (inserted, local_index)
      else split_chunk inserted k chunk local_index

  pub insert_inode : HierarchyInodeManager A → ℕ → HierarchyInodeManager A × ℕ
  insert_inode m inode =
      let k = insertion_chunk m.chunks inode in
      if length m.chunks == 0
      then first_chunk m
      else insert_into m k (get_or m.chunks k no_chunk) inode

  -- The erasure from `chunk`, of index `k`.
  pub erase_cached : HierarchyInodeManager A → ℕ → InodeChunk → ℕ → HierarchyInodeManager A
  erase_cached m k chunk inode =
      let loaded = load_chunk m chunk in
      record loaded {
        cached_inodes = remove_at loaded.cached_inodes (inode - chunk.start_inode);
        chunks = set loaded.chunks k (record chunk { num_inodes = chunk.num_inodes - 1 });
        cache_dirty = true;
      }

  -- `chunk`, of index `k`, is cached and has lost its last inode.
  pub drop_chunk : HierarchyInodeManager A → ℕ → InodeChunk → HierarchyInodeManager A
  drop_chunk m k chunk =
      let chunks = remove_at m.chunks k in
      record m {
        allocation_manager =
            A.free m.allocation_manager chunk.handle (chunk.num_inodes * inode_size);
        chunks = take k chunks ++ shift_starts_down (drop k chunks);
        cache_handle = none;
        cached_inodes = [];
        cache_dirty = false;
      }

  pub remove_from : HierarchyInodeManager A → ℕ → InodeChunk → ℕ → HierarchyInodeManager A
  remove_from m k chunk inode =
      let erased = erase_cached m k chunk inode in
      if chunk.num_inodes - 1 == 0 then drop_chunk erased k chunk else record erased {
        chunks = take (k + 1) erased.chunks ++ shift_starts_down (drop (k + 1) erased.chunks);
      }

  pub remove_inode : HierarchyInodeManager A → ℕ → HierarchyInodeManager A
  remove_inode m inode = elim (find_chunk 0 m.chunks inode) [
    | none ↦ m
    | some k ↦ remove_from m k (get_or m.chunks k no_chunk) inode
  ]

  -- Its bytes, and the manager with its cache flushed.
  pub serialize : HierarchyInodeManager A → HierarchyInodeManager A × List ℕ
  serialize m =
      let flushed = flush_cache m in
      (flushed, to_bytes 8 (length flushed.chunks) ++ serialize_chunks flushed.chunks)

  pub deserialize : HierarchyInodeManager A → List ℕ → Option (HierarchyInodeManager A × List ℕ)
  deserialize m bytes = from_bytes 8 bytes >>= λ (n : ℕ × List ℕ).
      deserialize_chunks n.0 n.1 >>= λ (r : List InodeChunk × List ℕ).
      some (
        record m { chunks = r.0; cache_handle = none; cached_inodes = []; cache_dirty = false },
        r.1,
      )

  pub get_serialized_size : HierarchyInodeManager A → ℕ
  get_serialized_size m = 8 + length m.chunks * 24
