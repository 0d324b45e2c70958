-- ===== src/WaveletTree/Update.antt =====
-- Insertion, removal and assignment in the wavelet tree
-- (src/wavelet_tree/two_bit_wavelet_tree.hpp).
use succinct_filesystem.Base.{
  ℕ, zero, suc, ◌+◌, ◌-◌, ◌≤◌, ◌<◌, ◌≡◌, ap, sym, ◌∙◌, not, List, [], ◌∷◌, arith, leb, ◌==◌,
}
use native.Mathlib.Decide.{dec_lt}
use succinct_filesystem.Base.Seq.{
  length, get_or, insert_at, remove_at, set, insert_at-remove_at, length-remove_at,
}
use succinct_filesystem.BitVector.{BitVector, ones, zeros}
use succinct_filesystem.BitVector.Count
use succinct_filesystem.BitVector.Count.{one_if}
use succinct_filesystem.WaveletTree
use succinct_filesystem.WaveletTree.{TwoBitWaveletTree}
use succinct_filesystem.WaveletTree.Split.{
  roots, lefts-rank, rights-rank, roots-insert, lefts-insert, rights-insert, roots-remove,
  lefts-remove, rights-remove,
}
use succinct_filesystem.WaveletTree.Refine.{
  Holds, AllSymbols-insert, AllSymbols-remove, length-root, rank0_root, rank1_root, access_root,
  lefts_bound, rights_bound,
}

rank-zero-step :
    (xs : List ℕ) (i : ℕ)
    → i < length xs
    → Count.rank zeros (suc i) (roots xs)
      ≡ Count.rank zeros i (roots xs) + one_if (not (leb 2 (get_or xs i 0)))
rank-zero-step [] i h = absurd (omega arith)
rank-zero-step (x ∷ xs) zero h = omega arith
rank-zero-step (x ∷ xs) (suc i) h = omega (arith, rank-zero-step xs i (omega arith))

rank-one-step :
    (xs : List ℕ) (i : ℕ)
    → i < length xs
    → Count.rank ones (suc i) (roots xs)
      ≡ Count.rank ones i (roots xs) + one_if (leb 2 (get_or xs i 0))
rank-one-step [] i h = absurd (omega arith)
rank-one-step (x ∷ xs) zero h = omega arith
rank-one-step (x ∷ xs) (suc i) h = omega (arith, rank-one-step xs i (omega arith))

module _ (B : BitVector) {t : TwoBitWaveletTree B} (xs : List ℕ) (h : Holds B t xs) where
  before0 :
      (i : ℕ) → i ≤ length xs → 0 < i → B.rank0 t.root_bv (i - 1) ≡ Count.rank zeros i (roots xs)
  before0 i le pos =
      rank0_root B xs h (i - 1) (omega arith)
      ∙ ap (λ (n : ℕ). Count.rank zeros n (roots xs)) (omega arith)

  before1 :
      (i : ℕ) → i ≤ length xs → 0 < i → B.rank1 t.root_bv (i - 1) ≡ Count.rank ones i (roots xs)
  before1 i le pos =
      rank1_root B xs h (i - 1) (omega arith)
      ∙ ap (λ (n : ℕ). Count.rank ones n (roots xs)) (omega arith)

  insert_low :
      (i s : ℕ)
      → i ≤ length xs
      → s < 2
      → WaveletTree.insert B t i s ≡ record t {
        root_bv = B.insert t.root_bv i (leb 2 s);
        left_bv = B.insert t.left_bv (Count.rank zeros i (roots xs)) (s == 1);
      }
  unfolding WaveletTree.insert
  insert_low zero s le low = ground arith
  insert_low (suc i) s le low = ground (arith, before0 (suc i) le)

  insert_high :
      (i s : ℕ)
      → i ≤ length xs
      → 2 ≤ s
      → WaveletTree.insert B t i s ≡ record t {
        root_bv = B.insert t.root_bv i (leb 2 s);
        right_bv = B.insert t.right_bv (Count.rank ones i (roots xs)) (s == 3);
      }
  unfolding WaveletTree.insert
  insert_high zero s le low = ground arith
  insert_high (suc i) s le low = ground (arith, before1 (suc i) le)

  insert_root :
      (i s : ℕ)
      → i ≤ length xs
      → B.IsValid (B.insert t.root_bv i (leb 2 s))
        × (B.view (B.insert t.root_bv i (leb 2 s)) ≡ roots (insert_at xs i s))
  insert_root i s le =
      let inside = rw (← length-root B xs h) at le in
      (
        B.insert-IsValid t.root_bv i (leb 2 s) h.root_valid inside,
        B.view-insert t.root_bv i (leb 2 s) h.root_valid inside
            ∙ ap (λ bits. insert_at bits i (leb 2 s)) h.root
            ∙ sym (roots-insert xs i s),
      )

  -- On a tree that holds `xs`, inserting a symbol at a position up to the size gives a tree that
  -- holds `xs` with the symbol inserted there.
  pub insert-Holds :
      (i s : ℕ) → i ≤ length xs → s < 4 → Holds B (WaveletTree.insert B t i s) (insert_at xs i s)
  insert-Holds i s le four = elim (dec_lt s 2) [
    | yes low ↦
        let at = Count.rank zeros i (roots xs) in
        let fits : at ≤ length (B.view t.left_bv) = rw h.left (lefts_bound B xs h i le) in
        rw (insert_low i s le low) (record {
          root_valid = (insert_root i s le).0;
          left_valid = B.insert-IsValid t.left_bv at (s == 1) h.left_valid fits;
          right_valid = h.right_valid;
          root = (insert_root i s le).1;
          left =
              B.view-insert t.left_bv at (s == 1) h.left_valid fits
              ∙ ap (λ bits. insert_at bits at (s == 1)) h.left
              ∙ ground (arith, lefts-insert xs i s le);
          right = h.right ∙ ground (arith, rights-insert xs i s le);
          symbols = AllSymbols-insert xs i s h.symbols four;
        })
    | no high ↦
        let at = Count.rank ones i (roots xs) in
        let fits : at ≤ length (B.view t.right_bv) = rw h.right (rights_bound B xs h i le) in
        rw (insert_high i s le (omega arith)) (record {
          root_valid = (insert_root i s le).0;
          left_valid = h.left_valid;
          right_valid = B.insert-IsValid t.right_bv at (s == 3) h.right_valid fits;
          root = (insert_root i s le).1;
          left = h.left ∙ ground (arith, lefts-insert xs i s le);
          right =
              B.view-insert t.right_bv at (s == 3) h.right_valid fits
              ∙ ap (λ bits. insert_at bits at (s == 3)) h.right
              ∙ ground (arith, rights-insert xs i s le);
          symbols = AllSymbols-insert xs i s h.symbols four;
        })
  ]

  remove_root :
      (i : ℕ)
      → i < length xs
      → B.IsValid (B.remove t.root_bv i) × (B.view (B.remove t.root_bv i) ≡ roots (remove_at xs i))
  remove_root i lt =
      let inside : i < length (B.view t.root_bv) = omega (arith, length-root B xs h) in
      (
        B.remove-IsValid t.root_bv i h.root_valid inside,
        B.view-remove t.root_bv i h.root_valid inside
            ∙ ap (λ bits. remove_at bits i) h.root
            ∙ sym (roots-remove xs i),
      )

  remove_low :
      (i : ℕ)
      → i < length xs
      → get_or xs i 0 < 2
      → WaveletTree.remove B t i ≡ record t {
        root_bv = B.remove t.root_bv i;
        left_bv = B.remove t.left_bv (Count.rank zeros i (roots xs));
      }
  unfolding WaveletTree.remove
  remove_low i lt low = ground (
    arith,
    access_root B xs h i lt,
    rank0_root B xs h i lt,
    lefts-rank xs i lt low,
    rank-zero-step xs i lt,
  )

  remove_high :
      (i : ℕ)
      → i < length xs
      → 2 ≤ get_or xs i 0
      → WaveletTree.remove B t i ≡ record t {
        root_bv = B.remove t.root_bv i;
        right_bv = B.remove t.right_bv (Count.rank ones i (roots xs));
      }
  unfolding WaveletTree.remove
  remove_high i lt high = ground (
    arith,
    access_root B xs h i lt,
    rank1_root B xs h i lt,
    rights-rank xs i lt high,
    rank-one-step xs i lt,
  )

  -- On a tree that holds `xs`, removing the symbol at a position in range gives a tree that holds
  -- `xs` without it.
  pub remove-Holds : (i : ℕ) → i < length xs → Holds B (WaveletTree.remove B t i) (remove_at xs i)
  remove-Holds i lt = elim (dec_lt (get_or xs i 0) 2) [
    | yes low ↦
        let at = Count.rank zeros i (roots xs) in
        let fits : at < length (B.view t.left_bv) =
          rw h.left (ground (arith, lefts-rank xs i lt low, rank-zero-step xs i lt)) in
        rw (remove_low i lt low) (record {
          root_valid = (remove_root i lt).0;
          left_valid = B.remove-IsValid t.left_bv at h.left_valid fits;
          right_valid = h.right_valid;
          root = (remove_root i lt).1;
          left =
              B.view-remove t.left_bv at h.left_valid fits
              ∙ ap (λ bits. remove_at bits at) h.left
              ∙ ground (arith, lefts-remove xs i lt);
          right = h.right ∙ ground (arith, rights-remove xs i lt);
          symbols = AllSymbols-remove xs i h.symbols;
        })
    | no high ↦
        let at = Count.rank ones i (roots xs) in
        let fits : at < length (B.view t.right_bv) =
          rw h.right (ground (arith, rights-rank xs i lt, rank-one-step xs i lt)) in
        rw (remove_high i lt (omega arith)) (record {
          root_valid = (remove_root i lt).0;
          left_valid = h.left_valid;
          right_valid = B.remove-IsValid t.right_bv at h.right_valid fits;
          root = (remove_root i lt).1;
          left = h.left ∙ ground (arith, lefts-remove xs i lt);
          right =
              B.view-remove t.right_bv at h.right_valid fits
              ∙ ap (λ bits. remove_at bits at) h.right
              ∙ ground (arith, rights-remove xs i lt);
          symbols = AllSymbols-remove xs i h.symbols;
        })
  ]

-- On a tree that holds `xs`, set (a removal and an insertion) at a position in range gives a tree
-- that holds `xs` with that symbol replaced.
pub set_symbol-Holds :
    (B : BitVector) {t : TwoBitWaveletTree B} (xs : List ℕ) (i s : ℕ)
    → Holds B t xs
    → i < length xs
    → s < 4
    → Holds B (WaveletTree.set_symbol B t i s) (set xs i s)
unfolding WaveletTree.set_symbol
set_symbol-Holds B xs i s h lt four = rw (insert_at-remove_at xs i s lt) at (
    insert-Holds B (remove_at xs i) (remove-Holds B xs h i lt) i s
      (omega (arith, length-remove_at xs i lt)) four)
