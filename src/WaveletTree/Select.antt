-- ===== src/WaveletTree/Select.antt =====
-- Select in the wavelet tree (src/wavelet_tree/two_bit_wavelet_tree.hpp).
use succinct_filesystem.Base.{
  ℕ, zero, suc, ◌+◌, ◌≤◌, ◌<◌, ◌≡◌, refl, ap, ◌∙◌, List, Option, none, some, arith, ◌>>=◌,
}
use succinct_filesystem.Base.Seq.{length}
use succinct_filesystem.BitVector.{BitVector, ones, zeros}
use succinct_filesystem.BitVector.Count
use succinct_filesystem.BitVector.Count.{one_if}
use succinct_filesystem.WaveletTree
use succinct_filesystem.WaveletTree.{TwoBitWaveletTree}
use succinct_filesystem.WaveletTree.Split.{
  roots, lefts, rights, is_symbol, length-lefts, rank-split, select_zero-split, select_one-split,
  select_two-split, select_three-split,
}
use succinct_filesystem.WaveletTree.Refine.{Holds, lefts_bound, rights_bound}

>>=-cong :
    (o : Option ℕ) (f g : ℕ → Option ℕ) → ((k : ℕ) → o ≡ some k → f k ≡ g k) → (o >>= f) ≡ (o >>= g)
>>=-cong none f g h = refl
>>=-cong (some k) f g h = h k refl

module _ (B : BitVector) {t : TwoBitWaveletTree B} (xs : List ℕ) (h : Holds B t xs) where
  select0_root :
      (k : ℕ)
      → k < length (lefts xs)
      → B.select0 t.root_bv (k + 1) ≡ Count.select zeros (k + 1) (roots xs)
  select0_root k lt =
      B.select0_lem t.root_bv (k + 1) h.root_valid (omega arith)
        (rw h.root (omega (arith, length-lefts xs)))
      ∙ ap (Count.select zeros (k + 1)) h.root

  enough0 :
      (n : ℕ)
      → n ≤ Count.rank (is_symbol 0) (length xs) xs
      → n ≤ Count.rank zeros (length (lefts xs)) (lefts xs)
  enough0 n enough = omega (
    arith,
    (rank-split (length xs) xs h.symbols).0,
    Count.rank_mono zeros (Count.rank zeros (length xs) (roots xs)) (length (lefts xs)) (lefts xs)
        (lefts_bound B xs h (length xs) (omega arith)),
  )

  enough2 :
      (n : ℕ)
      → n ≤ Count.rank (is_symbol 2) (length xs) xs
      → n ≤ Count.rank zeros (length (rights xs)) (rights xs)
  enough2 n enough = omega (
    arith,
    (rank-split (length xs) xs h.symbols).2,
    Count.rank_mono zeros (Count.rank ones (length xs) (roots xs)) (length (rights xs)) (rights xs)
        (rights_bound B xs h (length xs) (omega arith)),
  )

  select1_root : (k : ℕ) → B.select1 t.root_bv (k + 1) ≡ Count.select ones (k + 1) (roots xs)
  select1_root k =
      B.select1_lem t.root_bv (k + 1) h.root_valid (omega arith)
      ∙ ap (Count.select ones (k + 1)) h.root

  -- On a tree that holds `xs`, select finds each occurrence of a symbol that there is.
  pub select_lem :
      (symbol n : ℕ)
      → symbol < 4
      → 0 < n
      → n ≤ Count.rank (is_symbol symbol) (length xs) xs
      → WaveletTree.select B t symbol n ≡ Count.select (is_symbol symbol) n xs
  unfolding WaveletTree.select
  select_lem zero n four pos enough =
      rw
        (
          select_zero-split n xs pos h.symbols,
          B.select0_lem t.left_bv n h.left_valid pos (rw h.left (enough0 n enough)),
          h.left,
        )
        (>>=-cong (Count.select zeros n (lefts xs)) _ _
          (λ k e. select0_root k (Count.rank-select zeros n (lefts xs) k pos e).0))
  select_lem (suc zero) n four pos enough =
      rw (select_one-split n xs pos h.symbols, B.select1_lem t.left_bv n h.left_valid pos, h.left)
        (>>=-cong (Count.select ones n (lefts xs)) _ _
          (λ k e. select0_root k (Count.rank-select ones n (lefts xs) k pos e).0))
  select_lem (suc (suc zero)) n four pos enough =
      rw
        (
          select_two-split n xs pos h.symbols,
          B.select0_lem t.right_bv n h.right_valid pos (rw h.right (enough2 n enough)),
          h.right,
        )
        (>>=-cong (Count.select zeros n (rights xs)) _ _ (λ k e. select1_root k))
  select_lem (suc (suc (suc zero))) n four pos enough =
      rw
        (
          select_three-split n xs pos h.symbols,
          B.select1_lem t.right_bv n h.right_valid pos,
          h.right,
        )
        (>>=-cong (Count.select ones n (rights xs)) _ _ (λ k e. select1_root k))
  select_lem (suc (suc (suc (suc s)))) n four pos enough = absurd (omega arith)
