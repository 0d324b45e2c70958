-- ===== src/BestFit/Handout.antt =====
-- What allocate and free (src/fsm/allocation/best_fit_allocation.cpp) do to the block bitmap.
use succinct_filesystem.Base.{
  ℕ, zero, suc, ◌+◌, ◌≤◌, ◌<◌, ◌≡◌, ◌⊎◌, inl, inr, refl, sym, ap, ◌∙◌, ◌≢◌, Bool, true, false, List,
  arith, ==_iff, ◌==◌,
}
use native.Mathlib.Decide.{ℕ_discrete, dec_lt}
use succinct_filesystem.Base.Seq.{
  length, get_or, insert_at, get_or-beyond, get_or-default, get_or-set_self, get_or-set_ne,
  get_or-insert_end_self, get_or-insert_end_ne, length-set, length-insert_at,
}
use succinct_filesystem.BitVector.{BitVector}
use succinct_filesystem.BestFit
use succinct_filesystem.BestFit.{size_max, blocks_for}
use succinct_filesystem.BestFit.Scan.{FreeRun, find_start_lem}

-- The `n` bits from `start` on have become `value`, and no other bit has changed.
pub record Written (before after : List Bool) (start n : ℕ) (value : Bool) : Type 0 where
  pub written : (j : ℕ) → start ≤ j → j < start + n → get_or after j false ≡ value
  pub kept : (j : ℕ) → (j < start) ⊎ (start + n ≤ j) → get_or after j false ≡ get_or before j false

nothing-Written : (bits : List Bool) (i : ℕ) (value : Bool) → Written bits bits i 0 value
nothing-Written bits i value = record {
  written = λ j from to. absurd (omega arith);
  kept = λ j outside. refl;
}

-- One bit written, and then those behind it.
then-Written :
    (before next after : List Bool) (i n : ℕ) (value : Bool)
    → get_or next i false ≡ value
    → ((j : ℕ) → j ≢ i → get_or next j false ≡ get_or before j false)
    → Written next after (i + 1) n value
    → Written before after i (suc n) value
then-Written before next after i n value here elsewhere rest = record {
  written = λ j from to. elim (ℕ_discrete j i) [
    | yes e ↦ rw e (rest.kept i (inl (omega arith)) ∙ here)
    | no ne ↦ rest.written j (omega arith) (omega arith)
  ];
  kept = λ j outside. elim outside [
    | inl lt ↦ rest.kept j (inl (omega arith)) ∙ elsewhere j (λ e. absurd (omega (arith, e)))
    | inr le ↦ rest.kept j (inr (omega arith)) ∙ elsewhere j (λ e. absurd (omega (arith, e)))
  ];
}

-- What is promised of a bitmap and a first block that are handed out as `n` blocks.
pub record Allocated (B : BitVector) (bitmap : B.Carrier) (n : ℕ) (result : B.Carrier × ℕ)
    : Type 0 where
  pub valid : B.IsValid result.0
  pub header : 0 < result.1
  pub inside : result.1 + n ≤ length (B.view result.0)
  pub free_before :
      (j : ℕ) → result.1 ≤ j → j < result.1 + n → get_or (B.view bitmap) j false ≡ false
  pub written : Written (B.view bitmap) (B.view result.0) result.1 n true

module _ (B : BitVector) where
  pub set_blocks-Written :
      (n : ℕ) (bitmap : B.Carrier) (i : ℕ) (value : Bool)
      → B.IsValid bitmap
      → i + n ≤ length (B.view bitmap)
      → B.IsValid (BestFit.set_blocks B n bitmap i value)
        × (length (B.view (BestFit.set_blocks B n bitmap i value)) ≡ length (B.view bitmap))
        × Written (B.view bitmap) (B.view (BestFit.set_blocks B n bitmap i value)) i n value
  unfolding BestFit.set_blocks
  set_blocks-Written zero bitmap i value valid le =
      (valid, refl, nothing-Written (B.view bitmap) i value)
  set_blocks-Written (suc n) bitmap i value valid le =
      let bits = B.view bitmap in
      let lt : i < length bits = omega arith in
      let next = B.set_bit bitmap i value in
      let seen = B.view-set bitmap i value valid lt in
      let same : length (B.view next) ≡ length bits = rw seen (length-set bits i value) in
      let rest =
        set_blocks-Written n next (i + 1) value (B.set-IsValid bitmap i value valid lt)
          (omega (arith, same)) in
      (
        rest.0,
        rest.1 ∙ same,
        then-Written bits (B.view next) (B.view (BestFit.set_blocks B n next (i + 1) value)) i n
            value (rw seen (get_or-set_self bits i value false lt))
            (λ j ne. rw seen (get_or-set_ne bits i j value false (λ e. ne (sym e)))) rest.2,
      )

  append_blocks-Written :
      (n : ℕ) (bitmap : B.Carrier) (i : ℕ)
      → B.IsValid bitmap
      → i ≡ length (B.view bitmap)
      → B.IsValid (BestFit.append_blocks B n bitmap i)
        × (length (B.view (BestFit.append_blocks B n bitmap i)) ≡ i + n)
        × Written (B.view bitmap) (B.view (BestFit.append_blocks B n bitmap i)) i n true
  unfolding BestFit.append_blocks
  append_blocks-Written zero bitmap i valid e =
      (valid, omega (arith, e), nothing-Written (B.view bitmap) i true)
  append_blocks-Written (suc n) bitmap i valid e =
      let bits = B.view bitmap in
      let le : i ≤ length bits = omega (arith, e) in
      let next = B.insert bitmap i true in
      let seen : B.view next ≡ insert_at bits (length bits) true =
        B.view-insert bitmap i true valid le ∙ ap (λ (k : ℕ). insert_at bits k true) e in
      let grown : i + 1 ≡ length (B.view next) =
        rw seen (omega (arith, e, length-insert_at bits (length bits) true)) in
      let rest =
        append_blocks-Written n next (i + 1) (B.insert-IsValid bitmap i true valid le) grown in
      (
        rest.0,
        omega (arith, rest.1),
        then-Written bits (B.view next) (B.view (BestFit.append_blocks B n next (i + 1))) i n true
            (rw (seen, e) (get_or-insert_end_self bits true false))
            (λ j ne. rw seen (get_or-insert_end_ne bits j true false (λ q. ne (q ∙ sym e)))) rest.2,
      )

  in_bitmap :
      (block_size : ℕ) (bitmap : B.Carrier) (size : ℕ)
      → B.IsValid bitmap
      → FreeRun
          (B.view bitmap)
          (BestFit.find_start B bitmap (blocks_for block_size size))
          (blocks_for block_size size)
      → length (B.view bitmap) < size_max
      → Allocated B bitmap (blocks_for block_size size) (BestFit.allocate B block_size bitmap size)
  unfolding BestFit.allocate
  in_bitmap block_size bitmap size valid run small =
      let bits = B.view bitmap in
      let n = blocks_for block_size size in
      let start = BestFit.find_start B bitmap n in
      let found : (start == size_max) ≡ false = ground (arith, run.0, run.1) in
      let done = set_blocks-Written n bitmap start true valid run.1 in
      rw found (record {
        valid = done.0;
        header = run.0;
        inside = omega (arith, done.1, run.1);
        free_before = λ j from to.
            let inside : j < length bits = omega (arith, run.1) in
            get_or-default bits j false true inside ∙ run.2 j from to;
        written = done.2;
      })

  behind_bitmap :
      (block_size : ℕ) (bitmap : B.Carrier) (size : ℕ)
      → B.IsValid bitmap
      → 0 < length (B.view bitmap)
      → BestFit.find_start B bitmap (blocks_for block_size size) ≡ size_max
      → Allocated B bitmap (blocks_for block_size size) (BestFit.allocate B block_size bitmap size)
  unfolding BestFit.allocate
  behind_bitmap block_size bitmap size valid some_block none_found =
      let bits = B.view bitmap in
      let n = blocks_for block_size size in
      let at = B.size_lem bitmap valid in
      let done = append_blocks-Written n bitmap (B.size bitmap) valid at in
      rw ((==_iff (BestFit.find_start B bitmap n) size_max).1 none_found) (record {
        valid = done.0;
        header = omega (arith, at);
        inside = omega (arith, done.1);
        free_before = λ j from to. get_or-beyond bits j false (omega (arith, at));
        written = done.2;
      })

  -- From a bitmap with its header block, and of fewer than SIZE_MAX blocks, allocate hands out as
  -- many blocks as the size asks for, none of them the header and all of them free before; then
  -- exactly these blocks have become used, and no other bit of the bitmap has changed.
  pub allocate_lem :
      (block_size : ℕ) (bitmap : B.Carrier) (size : ℕ)
      → B.IsValid bitmap
      → 0 < length (B.view bitmap)
      → length (B.view bitmap) < size_max
      → Allocated B bitmap (blocks_for block_size size) (BestFit.allocate B block_size bitmap size)
  allocate_lem block_size bitmap size valid some_block small =
      elim (find_start_lem B bitmap valid (blocks_for block_size size) some_block small) [
        | inl none_found ↦ behind_bitmap block_size bitmap size valid some_block none_found
        | inr run ↦ in_bitmap block_size bitmap size valid run small
      ]

  -- From a valid bitmap, an allocation followed by a free of the blocks handed out, with the same
  -- size, leaves every bit as it was before.
  pub free-allocate :
      (block_size : ℕ) (bitmap : B.Carrier) (size : ℕ)
      → B.IsValid bitmap
      → 0 < length (B.view bitmap)
      → length (B.view bitmap) < size_max
      → (j : ℕ)
      → get_or
          (B.view (
            BestFit.free B block_size
              (BestFit.allocate B block_size bitmap size).0
              (BestFit.allocate B block_size bitmap size).1
              size))
          j
          false
        ≡ get_or (B.view bitmap) j false
  unfolding BestFit.free
  free-allocate block_size bitmap size valid some_block small j =
      let n = blocks_for block_size size in
      let given = allocate_lem block_size bitmap size valid some_block small in
      let start = (BestFit.allocate B block_size bitmap size).1 in
      let freed =
        set_blocks-Written n (BestFit.allocate B block_size bitmap size).0 start false given.valid
          given.inside in
      elim (dec_lt j start) [
        | yes before ↦ freed.2.kept j (inl before) ∙ given.written.kept j (inl before)
        | no from ↦ elim (dec_lt j (start + n)) [
          | yes to ↦ freed.2.written j (omega arith) to ∙ sym (given.free_before j (omega arith) to)
          | no behind ↦
              freed.2.kept j (inr (omega arith)) ∙ given.written.kept j (inr (omega arith))
        ]
      ]
