-- ===== src/BestFit/Scan.antt =====
-- The scan of allocate (src/fsm/allocation/best_fit_allocation.cpp) finds a run of free blocks.
use succinct_filesystem.Base.{
  ℕ, zero, suc, ◌+◌, ◌-◌, ◌≤◌, ◌<◌, ◌≡◌, ◌⊎◌, inl, inr, refl, ◌∙◌, Bool, true, false, List, arith,
  leb, ltb, ◌==◌, ==_iff, ◌&&◌, if◌then◌else◌, Bool-cases,
}
use native.Mathlib.Decide.{ℕ_discrete}
use succinct_filesystem.Base.Seq.{length, get_or, get_or-default}
use succinct_filesystem.BitVector.{BitVector}
use succinct_filesystem.BestFit
use succinct_filesystem.BestFit.{Search, size_max, start_search, scan_block, blocks_for}

-- The blocks from `start` on, `n` of them, lie behind the header block, inside, and are free.
abbrev pub FreeRun : List Bool → ℕ → ℕ → Type 0
FreeRun bits start n =
    (0 < start)
    × (start + n ≤ length bits)
    × ((i : ℕ) → start ≤ i → i < start + n → get_or bits i true ≡ false)

-- What the scan knows at block `i`: the current run ends there, and the best one is free and
-- large enough.
record Known (bits : List Bool) (required i : ℕ) (s : Search) : Type 0 where
  inside : i ≤ length bits
  header : 0 < i
  current :
      ((s.current_start ≡ size_max) × (s.current_size ≡ 0))
      ⊎ (FreeRun bits s.current_start s.current_size × (s.current_start + s.current_size ≡ i))
  best :
      (s.best_start ≡ size_max) ⊎ (FreeRun bits s.best_start s.best_size × (required ≤ s.best_size))

extend :
    (bits : List Bool) (start n i : ℕ)
    → FreeRun bits start n
    → start + n ≡ i
    → i < length bits
    → get_or bits i true ≡ false
    → FreeRun bits start (n + 1)
extend bits start n i run ends lt free = (
  run.0,
  omega (arith, ends),
  λ j from to. elim (ℕ_discrete j i) [
    | yes e ↦ rw e free
    | no ne ↦ run.2 j from (omega (arith, ends))
  ],
)

begin_run :
    (bits : List Bool) (i : ℕ)
    → 0 < i
    → i < length bits
    → get_or bits i true ≡ false
    → FreeRun bits i 1
begin_run bits i pos lt free =
    (pos, omega arith, λ j from to. let e : j ≡ i = omega arith in rw e free)

abbrev Current : List Bool → ℕ → ℕ → ℕ → Type 0
Current bits i start n = ((start ≡ size_max) × (n ≡ 0)) ⊎ (FreeRun bits start n × (start + n ≡ i))

abbrev Best : List Bool → ℕ → ℕ → ℕ → Type 0
Best bits required start n = (start ≡ size_max) ⊎ (FreeRun bits start n × (required ≤ n))

-- The better of the best run and the current one.
better :
    (bits : List Bool) (required i : ℕ) (s : Search)
    → Known bits required i s
    → (leb required s.current_size && ltb s.current_size s.best_size) ≡ true
    → Best bits required s.current_start s.current_size
better bits required i s k test = elim k.current [
  | inl none_yet ↦ inl none_yet.0
  | inr (run, _) ↦ inr (run, ground arith)
]

grow-Current :
    (bits : List Bool) (required i : ℕ) (s : Search)
    → length bits < size_max
    → i < length bits
    → Known bits required i s
    → get_or bits i true ≡ false
    → Current bits
        (i + 1)
        (if s.current_start == size_max then i else s.current_start)
        (s.current_size + 1)
grow-Current bits required i s small lt k free = elim k.current [
  | inl (unset, empty) ↦
      rw ((==_iff s.current_start size_max).1 unset, empty)
        (inr (begin_run bits i k.header lt free, omega arith))
  | inr (run, ends) ↦
      let set_already : (s.current_start == size_max) ≡ false = ground (arith, run.1) in
      rw set_already
        (inr (extend bits s.current_start s.current_size i run ends lt free, omega (arith, ends)))
]

scan_block-Known :
    (bits : List Bool) (required i : ℕ) (s : Search)
    → length bits < size_max
    → i < length bits
    → Known bits required i s
    → Known bits required (i + 1) (scan_block required i (get_or bits i true) s)
unfolding scan_block
scan_block-Known bits required i s small lt k = elim (Bool-cases (get_or bits i true)) [
  | inr free ↦ rw free (record {
    inside = omega arith;
    header = omega arith;
    current = grow-Current bits required i s small lt k free;
    best = k.best;
  })
  | inl used ↦
      rw used (elim (Bool-cases (leb required s.current_size && ltb s.current_size s.best_size)) [
        | inl taken ↦ rw taken (record {
          inside = omega arith;
          header = omega arith;
          current = inl (refl, refl);
          best = better bits required i s k taken;
        })
        | inr kept ↦ rw kept (record {
          inside = omega arith;
          header = omega arith;
          current = inl (refl, refl);
          best = k.best;
        })
      ])
]

shrink :
    (bits : List Bool) (required start n : ℕ)
    → Best bits required start n
    → (start ≡ size_max) ⊎ FreeRun bits start required
shrink bits required start n best = elim best [
  | inl none_yet ↦ inl none_yet
  | inr (run, enough) ↦ inr (run.0, omega (arith, run.1), λ j from to. run.2 j from (omega arith))
]

-- The test behind the loop chooses between the current run and the best one.
chosen :
    (bits : List Bool) (required i : ℕ) (s : Search)
    → Known bits required i s
    → ((if leb required s.current_size && ltb s.current_size s.best_size
          then s.current_start
          else s.best_start)
        ≡ size_max)
      ⊎ FreeRun bits
          (if leb required s.current_size && ltb s.current_size s.best_size
            then s.current_start
            else s.best_start)
          required
chosen bits required i s k =
    elim (Bool-cases (leb required s.current_size && ltb s.current_size s.best_size)) [
      | inl taken ↦
          rw taken
            (shrink bits required s.current_start s.current_size (better bits required i s k taken))
      | inr kept ↦ rw kept (shrink bits required s.best_start s.best_size k.best)
    ]

module _ (B : BitVector) (bitmap : B.Carrier) (valid : B.IsValid bitmap) where
  abbrev bits : List Bool
  bits = B.view bitmap

  scan-Known :
      (rounds required i : ℕ) (s : Search)
      → length bits < size_max
      → i + rounds ≡ length bits
      → Known bits required i s
      → Known bits required (length bits) (BestFit.scan B rounds bitmap required i s)
  unfolding BestFit.scan
  scan-Known zero required i s small ends k = let e : i ≡ length bits = omega arith in rw (← e) k
  scan-Known (suc rounds) required i s small ends k =
      let lt : i < length bits = omega arith in
      rw (B.access_lem bitmap i valid lt ∙ get_or-default bits i false true lt) (
        scan-Known rounds required (i + 1) (scan_block required i (get_or bits i true) s) small
          (omega arith) (scan_block-Known bits required i s small lt k))

  start-Known : (required : ℕ) → 0 < length bits → Known bits required 1 start_search
  unfolding start_search
  start-Known required some_block = record {
    inside = omega arith;
    header = omega arith;
    current = inl (refl, refl);
    best = inl refl;
  }

  -- The start that the scan finds is SIZE_MAX, or begins a run of enough free blocks behind the
  -- header block.
  pub find_start_lem :
      (required : ℕ)
      → 0 < length bits
      → length bits < size_max
      → (BestFit.find_start B bitmap required ≡ size_max)
        ⊎ FreeRun bits (BestFit.find_start B bitmap required) required
  unfolding BestFit.find_start
  find_start_lem required some_block small =
      let e : B.size bitmap ≡ length bits = B.size_lem bitmap valid in
      rw e (
        chosen bits required (length bits)
          (BestFit.scan B (length bits - 1) bitmap required 1 start_search)
          (scan-Known (length bits - 1) required 1 start_search small (omega arith)
            (start-Known required some_block)))
