-- ===== src/BestFit/Manager/Separate.antt =====
-- The best-fit allocation keeps allocations of `n` bytes apart
-- (src/fsm/allocation/best_fit_allocation.cpp): as long as the bitmap has fewer than SIZE_MAX blocks,
-- it fills Allocation.Apart.Separation.
use succinct_filesystem.Base.{
  ℕ, ◌+◌, ◌-◌, ◌/◌, ◌≤◌, ◌<◌, ◌≡◌, ◌≢◌, ◌⊎◌, inl, inr, refl, ◌∙◌, Bool, true, false, List, [], ◌∷◌,
  ◌++◌, arith,
}
use native.Mathlib.Decide.{dec_lt}
use native.Mathlib.Nat.{le_trans, div-mul-le_self, le-div_iff_mul-le}
use succinct_filesystem.Base.Seq.{length, get_or, get_or-beyond}
use succinct_filesystem.Serial.Format.{All, All-split, All-join}
use succinct_filesystem.BitVector.{BitVector}
use succinct_filesystem.Device.{BlockDevice}
use succinct_filesystem.Allocation.Apart.{Separation, Unaltered}
use succinct_filesystem.BestFit
use succinct_filesystem.BestFit.{blocks_for, size_max}
use succinct_filesystem.BestFit.Handout.{Written, allocate_lem, set_blocks-Written}
use succinct_filesystem.BestFit.Transfer.Apart.{read-write_apart}
use succinct_filesystem.BestFit.Manager
use succinct_filesystem.BestFit.Manager.{BestFitAllocation}
use succinct_filesystem.BestFit.Manager.Content.{best_fit_allocation}

-- Runs of `k` blocks.
abbrev pub Disjoint : ℕ → ℕ → ℕ → Type 0
Disjoint k g h = (g + k ≤ h) ⊎ (h + k ≤ g)

abbrev pub Used : List Bool → ℕ → ℕ → Type 0
Used bits k h = (j : ℕ) → h ≤ j → j < h + k → get_or bits j false ≡ true

abbrev pub Pairwise : ℕ → List ℕ → Type 0
Pairwise k [] = Unit
Pairwise k (h ∷ hs) = All (Disjoint k h) hs × Pairwise k hs

All-map : (P Q : ℕ → Type 0) (hs : List ℕ) → ((h : ℕ) → P h → Q h) → All P hs → All Q hs
All-map P Q [] f v = tt
All-map P Q (h ∷ hs) f v = (f h v.0, All-map P Q hs f v.1)

-- What holds of two lists holds of their elements at the same place.
All-zip :
    (P Q R : ℕ → Type 0) (hs : List ℕ)
    → ((h : ℕ) → P h → Q h → R h)
    → All P hs
    → All Q hs
    → All R hs
All-zip P Q R [] f v w = tt
All-zip P Q R (h ∷ hs) f v w = (f h v.0 w.0, All-zip P Q R hs f v.1 w.1)

Disjoint-sym : (k g h : ℕ) → Disjoint k g h → Disjoint k h g
Disjoint-sym k g h (inl le) = inr le
Disjoint-sym k g h (inr le) = inl le

Disjoint-ne : (k g h : ℕ) → 0 < k → Disjoint k g h → g ≢ h
Disjoint-ne k g h pos (inl le) e = absurd (omega (arith, e))
Disjoint-ne k g h pos (inr le) e = absurd (omega (arith, e))

Pairwise-middle :
    (k : ℕ) (xs : List ℕ) (h : ℕ) (ys : List ℕ)
    → Pairwise k (xs ++ h ∷ ys)
    → All (λ g. Disjoint k g h) xs × All (λ g. Disjoint k g h) ys × Pairwise k (xs ++ ys)
Pairwise-middle k [] h ys v =
    (tt, All-map (Disjoint k h) (λ g. Disjoint k g h) ys (λ g d. Disjoint-sym k h g d) v.0, v.1)
Pairwise-middle k (x ∷ xs) h ys v =
    let rest = Pairwise-middle k xs h ys v.1 in
    let parts = All-split (Disjoint k x) xs (h ∷ ys) v.0 in
    ((parts.1.0, rest.0), rest.1, (All-join (Disjoint k x) xs ys parts.0 parts.1.1, rest.2))

Pairwise-insert :
    (k : ℕ) (xs : List ℕ) (h : ℕ) (ys : List ℕ)
    → Pairwise k (xs ++ ys)
    → All (λ g. Disjoint k g h) (xs ++ ys)
    → Pairwise k (xs ++ h ∷ ys)
Pairwise-insert k [] h ys v w =
    (All-map (λ g. Disjoint k g h) (Disjoint k h) ys (λ g d. Disjoint-sym k g h d) w, v)
Pairwise-insert k (x ∷ xs) h ys v w =
    let parts = All-split (Disjoint k x) xs ys v.0 in
    (All-join (Disjoint k x) xs (h ∷ ys) parts.0 (w.0, parts.1), Pairwise-insert k xs h ys v.1 w.1)

-- A run that was free and one that was used have no block in common.
free-Disjoint :
    (bits : List Bool) (k g h : ℕ)
    → ((j : ℕ) → h ≤ j → j < h + k → get_or bits j false ≡ false)
    → Used bits k g
    → Disjoint k g h
free-Disjoint bits k g h clear used = elim (dec_lt h (g + k)) [
  | no before ↦ inl (omega arith)
  | yes below ↦ elim (dec_lt g (h + k)) [
    | no behind ↦ inr (omega arith)
    | yes above ↦ elim (dec_lt g h) [
      | yes lt ↦
          let a = clear h (omega arith) (omega arith) in
          let b = used h (omega arith) below in absurd (cc (a, b))
      | no ge ↦
          let a = clear g (omega arith) above in
          let b = used g (omega arith) (omega arith) in absurd (cc (a, b))
    ]
  ]
]

-- A run that is written nowhere stays used.
kept-Used :
    (before after : List Bool) (start n k g : ℕ) (value : Bool)
    → Written before after start n value
    → n ≤ k
    → Disjoint k g start
    → Used before k g
    → Used after k g
kept-Used before after start n k g value w le (inl d) used =
    λ j from to. w.kept j (inl (omega arith)) ∙ used j from to
kept-Used before after start n k g value w le (inr d) used =
    λ j from to. w.kept j (inr (omega arith)) ∙ used j from to

Used-le : (bits : List Bool) (k h : ℕ) → 0 < k → Used bits k h → h + k ≤ length bits
Used-le bits k h pos used = elim (dec_lt (h + k - 1) (length bits)) [
  | yes lt ↦ omega (arith, lt, pos)
  | no ge ↦
      let last = used (h + k - 1) (omega arith) (omega arith) in
      let beyond = get_or-beyond bits (h + k - 1) false (omega arith) in absurd (cc (last, beyond))
]

pub blocks_mono : (b m n : ℕ) → 0 < b → m ≤ n → blocks_for b m ≤ blocks_for b n
unfolding blocks_for
blocks_mono b m n pos h =
    (le-div_iff_mul-le {k = b} {x = (m + b - 1) / b} {y = n + b - 1} pos).1
      (le_trans (div-mul-le_self (m + b - 1) b) (omega (arith, h)))

pub blocks-pos : (b n : ℕ) → 0 < b → 0 < n → 0 < blocks_for b n
unfolding blocks_for
blocks-pos b n pos h =
    (le-div_iff_mul-le {k = b} {x = 1} {y = n + b - 1} pos).1 (omega (arith, h, pos))

module _ (B : BitVector) (V : BlockDevice) (n : ℕ) (some_bytes : 0 < n) where
  abbrev run : ℕ
  run = blocks_for V.block_size n

  -- The allocations have their blocks, and share none.
  pub record AreApart (a : BestFitAllocation B V) (hs : List ℕ) : Type 0 where
    pub valid : B.IsValid a.block_bitmap
    pub header : 0 < length (B.view a.block_bitmap)
    pub used : All (Used (B.view a.block_bitmap) (blocks_for V.block_size n)) hs
    pub disjoint : Pairwise (blocks_for V.block_size n) hs

  abbrev pub FewBlocks : BestFitAllocation B V → Type 0
  FewBlocks a = length (B.view a.block_bitmap) < size_max

  pub apart_distinct :
      (a : BestFitAllocation B V) (xs : List ℕ) (h : ℕ) (ys : List ℕ)
      → AreApart a (xs ++ h ∷ ys)
      → All (λ g. g ≢ h) xs × All (λ g. g ≢ h) ys
  apart_distinct a xs h ys v =
      let parts = Pairwise-middle run xs h ys v.disjoint in
      let pos = blocks-pos V.block_size n V.block_size-pos some_bytes in
      (
        All-map (λ g. Disjoint run g h) (λ g. g ≢ h) xs (λ g. Disjoint-ne run g h pos) parts.0,
        All-map (λ g. Disjoint run g h) (λ g. g ≢ h) ys (λ g. Disjoint-ne run g h pos) parts.1,
      )

  pub write-AreApart :
      (a : BestFitAllocation B V) (xs : List ℕ) (h : ℕ) (ys bytes : List ℕ)
      → AreApart a (xs ++ h ∷ ys)
      → length bytes ≤ n
      → AreApart (Manager.write B V a h bytes 0) (xs ++ h ∷ ys)
  unfolding Manager.write
  write-AreApart a xs h ys bytes v le = record {
    valid = v.valid;
    header = v.header;
    used = v.used;
    disjoint = v.disjoint;
  }

  untouched :
      (a : BestFitAllocation B V) (h : ℕ) (bytes hs : List ℕ)
      → length bytes ≤ n
      → All (λ g. Disjoint run g h) hs
      → Unaltered (best_fit_allocation B V) n a (Manager.write B V a h bytes 0) hs
  unfolding Manager.write Manager.read
  untouched a h bytes [] le v = tt
  untouched a h bytes (g ∷ hs) le v = (
    λ size small.
        let written =
          blocks_mono V.block_size (0 + length bytes) n V.block_size-pos (omega arith) in
        let seen = blocks_mono V.block_size (0 + size) n V.block_size-pos (omega arith) in
        read-write_apart V a.block_device h bytes 0 g size 0 (elim v.0 [
          | inl before ↦ inr (omega (arith, before, seen))
          | inr behind ↦ inl (omega (arith, behind, written))
        ]),
    untouched a h bytes hs le v.1,
  )

  pub write-untouched :
      (a : BestFitAllocation B V) (xs : List ℕ) (h : ℕ) (ys bytes : List ℕ)
      → AreApart a (xs ++ h ∷ ys)
      → length bytes ≤ n
      → Unaltered (best_fit_allocation B V) n a (Manager.write B V a h bytes 0) xs
        × Unaltered (best_fit_allocation B V) n a (Manager.write B V a h bytes 0) ys
  write-untouched a xs h ys bytes v le =
      let parts = Pairwise-middle run xs h ys v.disjoint in
      (untouched a h bytes xs le parts.0, untouched a h bytes ys le parts.1)

  pub write-FewBlocks :
      (a : BestFitAllocation B V) (h : ℕ) (bytes : List ℕ)
      → FewBlocks a
      → FewBlocks (Manager.write B V a h bytes 0)
  unfolding Manager.write
  write-FewBlocks a h bytes few = few

  -- With fewer than SIZE_MAX blocks, a new allocation of `n` bytes shares no block with those of `n`
  -- bytes that there are.
  pub allocate-AreApart :
      (a : BestFitAllocation B V) (xs ys : List ℕ)
      → AreApart a (xs ++ ys)
      → FewBlocks a
      → AreApart (Manager.allocate B V a n).0 (xs ++ (Manager.allocate B V a n).1 ∷ ys)
  unfolding Manager.allocate
  allocate-AreApart a xs ys v few =
      let given = allocate_lem B V.block_size a.block_bitmap n v.valid v.header few in
      let result = BestFit.allocate B V.block_size a.block_bitmap n in
      let before = B.view a.block_bitmap in
      let after = B.view result.0 in
      let apart =
        All-map (Used before run) (λ g. Disjoint run g result.1) (xs ++ ys)
          (λ g used. free-Disjoint before run g result.1 given.free_before used) v.used in
      let kept =
        All-zip (Used before run) (λ g. Disjoint run g result.1) (Used after run) (xs ++ ys)
          (λ g used d.
            kept-Used before after result.1 run run g true given.written (omega arith) d used)
          v.used apart in
      let parts = All-split (Used after run) xs ys kept in
      record {
        valid = given.valid;
        header = omega (arith, given.inside, given.header);
        used =
            All-join (Used after run) xs (result.1 ∷ ys) parts.0 (given.written.written, parts.1);
        disjoint = Pairwise-insert run xs result.1 ys v.disjoint apart;
      }

  pub read_allocated :
      (a : BestFitAllocation B V) (h size : ℕ)
      → Manager.read B V (Manager.allocate B V a n).0 h size 0 ≡ Manager.read B V a h size 0
  unfolding Manager.read Manager.allocate
  read_allocated a h size = refl

  pub free-AreApart :
      (a : BestFitAllocation B V) (xs : List ℕ) (h : ℕ) (ys : List ℕ) (size : ℕ)
      → AreApart a (xs ++ h ∷ ys)
      → size ≤ n
      → AreApart (Manager.free B V a h size) (xs ++ ys)
  unfolding Manager.free BestFit.free
  free-AreApart a xs h ys size v le =
      let m = blocks_for V.block_size size in
      let fewer = blocks_mono V.block_size size n V.block_size-pos le in
      let before = B.view a.block_bitmap in
      let own = All-split (Used before run) xs (h ∷ ys) v.used in
      let parts = Pairwise-middle run xs h ys v.disjoint in
      let inside =
        Used-le before run h (blocks-pos V.block_size n V.block_size-pos some_bytes) own.1.0 in
      let freed =
        set_blocks-Written B m a.block_bitmap h false v.valid (omega (arith, inside, fewer)) in
      let after = B.view (BestFit.set_blocks B m a.block_bitmap h false) in
      record {
        valid = freed.0;
        header = omega (arith, freed.1, v.header);
        used =
            All-zip (Used before run) (λ g. Disjoint run g h) (Used after run) (xs ++ ys)
              (λ g used d. kept-Used before after h m run g false freed.2 fewer d used)
              (All-join (Used before run) xs ys own.0 own.1.1)
              (All-join (λ g. Disjoint run g h) xs ys parts.0 parts.1);
        disjoint = parts.2;
      }

  pub read_freed :
      (a : BestFitAllocation B V) (g h size freed : ℕ)
      → Manager.read B V (Manager.free B V a g freed) h size 0 ≡ Manager.read B V a h size 0
  unfolding Manager.read Manager.free
  read_freed a g h size freed = refl

abbrev pub best_fit_separation :
    (B : BitVector) (V : BlockDevice) (n : ℕ) → 0 < n → Separation (best_fit_allocation B V) n
best_fit_separation B V n some_bytes = record {
  Held = AreApart B V n some_bytes;
  HasRoom = FewBlocks B V n some_bytes;
  distinct = apart_distinct B V n some_bytes;
  write-Held = write-AreApart B V n some_bytes;
  write-Unaltered = write-untouched B V n some_bytes;
  write-HasRoom = write-FewBlocks B V n some_bytes;
  allocate-Held = allocate-AreApart B V n some_bytes;
  read-allocate = read_allocated B V n some_bytes;
  free-Held = free-AreApart B V n some_bytes;
  read-free = read_freed B V n some_bytes;
}
