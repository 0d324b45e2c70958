-- ===== src/Inodes/Hierarchy/View.antt =====
-- The sequence of inodes that a hierarchy inode manager (src/fsm/inode/hierarchy_inode.cpp) stands
-- for: those of its chunks one after another, as they lie on the device, but those of the cached
-- chunk as they are in the cache.
use succinct_filesystem.Base.{
  ℕ, ◌+◌, ◌*◌, ◌≤◌, ◌<◌, ◌≡◌, ◌≢◌, refl, ap, ap₂, sym, ◌∙◌, Bool, true, false, List, [], ◌∷◌, ◌++◌,
  Option, none, some, ◌==◌, if◌then◌else◌, arith,
}
use mathlib.Core.List.{append_assoc}
use succinct_filesystem.Base.Seq.{length, length-append}
use succinct_filesystem.Allocation.{AllocationManager}
use succinct_filesystem.Allocation.Apart.{Unaltered}
use succinct_filesystem.Serial.Format.{All}
use succinct_filesystem.Inodes.{Inode}
use succinct_filesystem.Inodes.Hierarchy.{
  InodeChunk, HierarchyInodeManager, chunk_size, shift_starts_up, shift_starts_down,
}
use succinct_filesystem.Inodes.Hierarchy.Image.{inode_size, from_memory, length-from_memory}

abbrev pub handles : List InodeChunk → List ℕ
handles [] = []
handles (c ∷ cs) = c.handle ∷ handles cs

abbrev pub total : List InodeChunk → ℕ
total [] = 0
total (c ∷ cs) = c.num_inodes + total cs

-- The chunks follow one another from `start` on; none is empty or has more than 85 inodes.
abbrev pub Starts : ℕ → List InodeChunk → Type 0
Starts start [] = Unit
Starts start (c ∷ cs) =
    (c.start_inode ≡ start)
    × (0 < c.num_inodes)
    × (c.num_inodes ≤ chunk_size)
    × Starts (start + c.num_inodes) cs

pub total_append : (cs ds : List InodeChunk) → total (cs ++ ds) ≡ total cs + total ds
total_append [] ds = omega arith
total_append (c ∷ cs) ds = omega (arith, total_append cs ds)

pub handles_append : (cs ds : List InodeChunk) → handles (cs ++ ds) ≡ handles cs ++ handles ds
handles_append [] ds = refl
handles_append (c ∷ cs) ds = ap (λ t. c.handle ∷ t) (handles_append cs ds)

pub handles-shift_starts_up : (cs : List InodeChunk) → handles (shift_starts_up cs) ≡ handles cs
unfolding shift_starts_up
handles-shift_starts_up [] = refl
handles-shift_starts_up (c ∷ cs) = ap (λ t. c.handle ∷ t) (handles-shift_starts_up cs)

pub handles-shift_starts_down : (cs : List InodeChunk) → handles (shift_starts_down cs) ≡ handles cs
unfolding shift_starts_down
handles-shift_starts_down [] = refl
handles-shift_starts_down (c ∷ cs) = ap (λ t. c.handle ∷ t) (handles-shift_starts_down cs)

pub Starts-shift_starts_up :
    (s t : ℕ) (cs : List InodeChunk) → t ≡ s + 1 → Starts s cs → Starts t (shift_starts_up cs)
unfolding shift_starts_up
Starts-shift_starts_up s t [] e v = tt
Starts-shift_starts_up s t (c ∷ cs) e v = (
  omega (arith, e, v.0),
  v.1,
  v.2,
  Starts-shift_starts_up (s + c.num_inodes) (t + c.num_inodes) cs (omega (arith, e)) v.3,
)

pub Starts-shift_starts_down :
    (s t : ℕ) (cs : List InodeChunk) → s ≡ t + 1 → Starts s cs → Starts t (shift_starts_down cs)
unfolding shift_starts_down
Starts-shift_starts_down s t [] e v = tt
Starts-shift_starts_down s t (c ∷ cs) e v = (
  omega (arith, e, v.0),
  v.1,
  v.2,
  Starts-shift_starts_down (s + c.num_inodes) (t + c.num_inodes) cs (omega (arith, e)) v.3,
)

pub Starts-cong : (s t : ℕ) (cs : List InodeChunk) → s ≡ t → Starts s cs → Starts t cs
Starts-cong s t [] e v = tt
Starts-cong s t (c ∷ cs) e v = (
  omega (arith, e, v.0),
  v.1,
  v.2,
  Starts-cong (s + c.num_inodes) (t + c.num_inodes) cs (omega (arith, e)) v.3,
)

pub Starts-split :
    (s : ℕ) (cs ds : List InodeChunk) → Starts s (cs ++ ds) → Starts s cs × Starts (s + total cs) ds
Starts-split s [] ds v = (tt, Starts-cong s (s + 0) ds (omega arith) v)
Starts-split s (c ∷ cs) ds v =
    let rest = Starts-split (s + c.num_inodes) cs ds v.3 in
    (
      (v.0, v.1, v.2, rest.0),
      Starts-cong (s + c.num_inodes + total cs) (s + (c.num_inodes + total cs)) ds (omega arith)
          rest.1,
    )

pub Starts-join :
    (s t : ℕ) (cs ds : List InodeChunk)
    → t ≡ s + total cs
    → Starts s cs
    → Starts t ds
    → Starts s (cs ++ ds)
Starts-join s t [] ds e v w = Starts-cong t s ds (omega (arith, e)) w
Starts-join s t (c ∷ cs) ds e v w =
    (v.0, v.1, v.2, Starts-join (s + c.num_inodes) t cs ds (omega (arith, e)) v.3 w)

abbrev is_cached : Option ℕ → ℕ → Bool
is_cached none handle = false
is_cached (some g) handle = handle == g

module _ (A : AllocationManager) where
  unfoldable pub disk : A.Carrier → InodeChunk → List Inode
  disk a c = from_memory c.num_inodes (A.read a c.handle (c.num_inodes * inode_size) 0)

  pub length-disk : (a : A.Carrier) (c : InodeChunk) → length (disk a c) ≡ c.num_inodes
  unfolding disk
  length-disk a c =
      length-from_memory c.num_inodes (A.read a c.handle (c.num_inodes * inode_size) 0)

  unfoldable pub contents : A.Carrier → Option ℕ → List Inode → List InodeChunk → List Inode
  contents a cache cached [] = []
  contents a cache cached (c ∷ cs) =
      (if is_cached cache c.handle then cached else disk a c) ++ contents a cache cached cs

  unfoldable pub view : HierarchyInodeManager A → List Inode
  view m = contents m.allocation_manager m.cache_handle m.cached_inodes m.chunks

  -- The inodes as they lie on the device.
  unfoldable pub stored : A.Carrier → List InodeChunk → List Inode
  stored a [] = []
  stored a (c ∷ cs) = disk a c ++ stored a cs

  pub contents-none :
      (a : A.Carrier) (cached : List Inode) (cs : List InodeChunk)
      → contents a none cached cs ≡ stored a cs
  unfolding contents stored
  contents-none a cached [] = refl
  contents-none a cached (c ∷ cs) = ap (λ t. disk a c ++ t) (contents-none a cached cs)

  contents-other :
      (a : A.Carrier) (h : ℕ) (cached : List Inode) (cs : List InodeChunk)
      → All (λ g. g ≢ h) (handles cs)
      → contents a (some h) cached cs ≡ stored a cs
  unfolding contents stored
  contents-other a h cached [] v = refl
  contents-other a h cached (c ∷ cs) v =
      let other : (c.handle == h) ≡ false = ground (arith, v.0) in
      rw other (ap (λ t. disk a c ++ t) (contents-other a h cached cs v.1))

  pub contents_focus :
      (a : A.Carrier) (cached : List Inode) (pre : List InodeChunk) (c : InodeChunk)
      (post : List InodeChunk)
      → All (λ g. g ≢ c.handle) (handles pre)
      → All (λ g. g ≢ c.handle) (handles post)
      → contents a (some c.handle) cached (pre ++ c ∷ post)
        ≡ stored a pre ++ (cached ++ stored a post)
  unfolding contents stored
  contents_focus a cached [] c post v w =
      let here : (c.handle == c.handle) ≡ true = ground arith in
      rw here (ap (λ t. cached ++ t) (contents-other a c.handle cached post w))
  contents_focus a cached (b ∷ pre) c post v w =
      let other : (b.handle == c.handle) ≡ false = ground (arith, v.0) in
      rw other (
        ap (λ t. disk a b ++ t) (contents_focus a cached pre c post v.1 w)
        ∙ sym (append_assoc (disk a b) (stored a pre) (cached ++ stored a post)))

  pub stored_append :
      (a : A.Carrier) (cs ds : List InodeChunk) → stored a (cs ++ ds) ≡ stored a cs ++ stored a ds
  unfolding stored
  stored_append a [] ds = refl
  stored_append a (c ∷ cs) ds =
      ap (λ t. disk a c ++ t) (stored_append a cs ds)
      ∙ sym (append_assoc (disk a c) (stored a cs) (stored a ds))

  pub length-stored : (a : A.Carrier) (cs : List InodeChunk) → length (stored a cs) ≡ total cs
  unfolding stored
  length-stored a [] = refl
  length-stored a (c ∷ cs) =
      omega (arith, length-append (disk a c) (stored a cs), length-disk a c, length-stored a cs)

  pub stored-shift_starts_up :
      (a : A.Carrier) (cs : List InodeChunk) → stored a (shift_starts_up cs) ≡ stored a cs
  unfolding stored shift_starts_up disk
  stored-shift_starts_up a [] = refl
  stored-shift_starts_up a (c ∷ cs) = ap (λ t. disk a c ++ t) (stored-shift_starts_up a cs)

  pub stored-shift_starts_down :
      (a : A.Carrier) (cs : List InodeChunk) → stored a (shift_starts_down cs) ≡ stored a cs
  unfolding stored shift_starts_down disk
  stored-shift_starts_down a [] = refl
  stored-shift_starts_down a (c ∷ cs) = ap (λ t. disk a c ++ t) (stored-shift_starts_down a cs)

  pub stored-cong :
      (a b : A.Carrier) (s : ℕ) (cs : List InodeChunk)
      → Starts s cs
      → Unaltered A (chunk_size * inode_size) a b (handles cs)
      → stored b cs ≡ stored a cs
  unfolding stored disk
  stored-cong a b s [] v u = refl
  stored-cong a b s (c ∷ cs) v u =
      ap₂ ◌++◌
        (ap (from_memory c.num_inodes) (u.0 (c.num_inodes * inode_size) (omega (arith, v.2))))
        (stored-cong a b (s + c.num_inodes) cs v.3 u.1)
