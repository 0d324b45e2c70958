-- ===== src/WaveletTree/Refine.antt =====
-- The wavelet tree refines a plain sequence of symbols
-- (src/wavelet_tree/two_bit_wavelet_tree.hpp).
use succinct_filesystem.Base.{
  ℕ, zero, suc, ◌+◌, ◌-◌, ◌≤◌, ◌<◌, ◌≡◌, ap, ◌∙◌, true, false, List, [], ◌∷◌, none, some, arith,
  ltb, leb, if◌then◌else◌,
}
use native.Mathlib.Decide.{dec_lt}
use succinct_filesystem.Base.Seq.{length, get_or, insert_at, remove_at}
use succinct_filesystem.BitVector.{BitVector, ones, zeros}
use succinct_filesystem.BitVector.Count
use succinct_filesystem.BitVector.Count.{one_if}
use succinct_filesystem.WaveletTree
use succinct_filesystem.WaveletTree.{TwoBitWaveletTree}
use succinct_filesystem.WaveletTree.Split.{
  roots, lefts, rights, is_symbol, AllSymbols, length-roots, length-lefts, length-rights,
  lefts-rank, rights-rank, roots-get, rank-split,
}

-- The three bit vectors hold the parts of `xs`.
pub record Holds (B : BitVector) (t : TwoBitWaveletTree B) (xs : List ℕ) : Type 0 where
  pub root_valid : B.IsValid t.root_bv
  pub left_valid : B.IsValid t.left_bv
  pub right_valid : B.IsValid t.right_bv
  pub root : B.view t.root_bv ≡ roots xs
  pub left : B.view t.left_bv ≡ lefts xs
  pub right : B.view t.right_bv ≡ rights xs
  pub symbols : AllSymbols xs

pub ltb-true : (a b : ℕ) → a < b → ltb a b ≡ true
ltb-true a b h = ground arith

pub symbol-lt : (xs : List ℕ) (i : ℕ) → AllSymbols xs → get_or xs i 0 < 4
symbol-lt [] i a = omega arith
symbol-lt (x ∷ xs) zero a = a.0
symbol-lt (x ∷ xs) (suc i) a = symbol-lt xs i a.1

pub AllSymbols-insert :
    (xs : List ℕ) (i s : ℕ) → AllSymbols xs → s < 4 → AllSymbols (insert_at xs i s)
AllSymbols-insert [] i s a h = (h, tt)
AllSymbols-insert (x ∷ xs) zero s a h = (h, a)
AllSymbols-insert (x ∷ xs) (suc i) s a h = (a.0, AllSymbols-insert xs i s a.1 h)

pub AllSymbols-remove : (xs : List ℕ) (i : ℕ) → AllSymbols xs → AllSymbols (remove_at xs i)
AllSymbols-remove [] i a = tt
AllSymbols-remove (x ∷ xs) zero a = a.1
AllSymbols-remove (x ∷ xs) (suc i) a = (a.0, AllSymbols-remove xs i a.1)

module _ (B : BitVector) {t : TwoBitWaveletTree B} (xs : List ℕ) (h : Holds B t xs) where
  pub length-root : length (B.view t.root_bv) ≡ length xs
  length-root = ap length h.root ∙ length-roots xs

  pub rank0_root :
      (i : ℕ) → i < length xs → B.rank0 t.root_bv i ≡ Count.rank zeros (i + 1) (roots xs)
  rank0_root i lt =
      B.rank0_lem t.root_bv i h.root_valid (omega (arith, length-root))
      ∙ ap (Count.rank zeros (i + 1)) h.root

  pub rank1_root :
      (i : ℕ) → i < length xs → B.rank1 t.root_bv i ≡ Count.rank ones (i + 1) (roots xs)
  rank1_root i lt =
      B.rank1_lem t.root_bv i h.root_valid (omega (arith, length-root))
      ∙ ap (Count.rank ones (i + 1)) h.root

  pub access_root : (i : ℕ) → i < length xs → B.access t.root_bv i ≡ leb 2 (get_or xs i 0)
  access_root i lt =
      B.access_lem t.root_bv i h.root_valid (omega (arith, length-root))
      ∙ ap (λ bits. get_or bits i false) h.root
      ∙ roots-get xs i lt

  access_left : (i : ℕ) → i < length (lefts xs) → B.access t.left_bv i ≡ get_or (lefts xs) i false
  access_left i lt =
      B.access_lem t.left_bv i h.left_valid (rw h.left lt) ∙ ap (λ bits. get_or bits i false) h.left

  access_right :
      (i : ℕ) → i < length (rights xs) → B.access t.right_bv i ≡ get_or (rights xs) i false
  access_right i lt =
      B.access_lem t.right_bv i h.right_valid (rw h.right lt)
      ∙ ap (λ bits. get_or bits i false) h.right

  -- On a tree that holds `xs`, access returns the symbol at every position in range.
  pub access_lem : (i : ℕ) → i < length xs → WaveletTree.access B t i ≡ get_or xs i 0
  unfolding WaveletTree.access
  access_lem i lt = elim (dec_lt (get_or xs i 0) 2) [
    | yes low ↦ ground (
      arith,
      access_root i lt,
      rank0_root i lt,
      lefts-rank xs i lt low,
      access_left (Count.rank zeros (suc i) (roots xs) - 1),
    )
    | no high ↦ ground (
      arith,
      access_root i lt,
      rank1_root i lt,
      rights-rank xs i lt,
      symbol-lt xs i h.symbols,
      access_right (Count.rank ones (suc i) (roots xs) - 1),
    )
  ]

  rank0_left :
      (i : ℕ) → i < length (lefts xs) → B.rank0 t.left_bv i ≡ Count.rank zeros (i + 1) (lefts xs)
  rank0_left i lt =
      B.rank0_lem t.left_bv i h.left_valid (rw h.left lt) ∙ ap (Count.rank zeros (i + 1)) h.left

  rank1_left :
      (i : ℕ) → i < length (lefts xs) → B.rank1 t.left_bv i ≡ Count.rank ones (i + 1) (lefts xs)
  rank1_left i lt =
      B.rank1_lem t.left_bv i h.left_valid (rw h.left lt) ∙ ap (Count.rank ones (i + 1)) h.left

  rank0_right :
      (i : ℕ) → i < length (rights xs) → B.rank0 t.right_bv i ≡ Count.rank zeros (i + 1) (rights xs)
  rank0_right i lt =
      B.rank0_lem t.right_bv i h.right_valid (rw h.right lt) ∙ ap (Count.rank zeros (i + 1)) h.right

  rank1_right :
      (i : ℕ) → i < length (rights xs) → B.rank1 t.right_bv i ≡ Count.rank ones (i + 1) (rights xs)
  rank1_right i lt =
      B.rank1_lem t.right_bv i h.right_valid (rw h.right lt) ∙ ap (Count.rank ones (i + 1)) h.right

  pub size_root : B.size t.root_bv ≡ length xs
  size_root = B.size_lem t.root_bv h.root_valid ∙ length-root

  pub lefts_bound : (n : ℕ) → n ≤ length xs → Count.rank zeros n (roots xs) ≤ length (lefts xs)
  lefts_bound n le = omega (
    arith,
    Count.rank_mono zeros n (length (roots xs)) (roots xs) (omega (arith, length-roots xs)),
    length-lefts xs,
  )

  pub rights_bound : (n : ℕ) → n ≤ length xs → Count.rank ones n (roots xs) ≤ length (rights xs)
  rights_bound n le = omega (
    arith,
    Count.rank_mono ones n (length (roots xs)) (roots xs) (omega (arith, length-roots xs)),
    length-rights xs,
  )

  rank_inside :
      (symbol i : ℕ)
      → i < length xs
      → symbol < 4
      → WaveletTree.rank B t symbol i ≡ some (Count.rank (is_symbol symbol) (i + 1) xs)
  unfolding WaveletTree.rank
  rank_inside zero i lt four = ground (
    arith,
    rank0_root i lt,
    rank-split (i + 1) xs h.symbols,
    rank0_left (Count.rank zeros (i + 1) (roots xs) - 1),
    lefts_bound (i + 1) (omega arith),
    size_root,
  )
  rank_inside (suc zero) i lt four = ground (
    arith,
    rank0_root i lt,
    rank-split (i + 1) xs h.symbols,
    rank1_left (Count.rank zeros (i + 1) (roots xs) - 1),
    lefts_bound (i + 1) (omega arith),
    size_root,
  )
  rank_inside (suc (suc zero)) i lt four = ground (
    arith,
    rank1_root i lt,
    rank-split (i + 1) xs h.symbols,
    rank0_right (Count.rank ones (i + 1) (roots xs) - 1),
    rights_bound (i + 1) (omega arith),
    size_root,
  )
  rank_inside (suc (suc (suc zero))) i lt four = ground (
    arith,
    rank1_root i lt,
    rank-split (i + 1) xs h.symbols,
    rank1_right (Count.rank ones (i + 1) (roots xs) - 1),
    rights_bound (i + 1) (omega arith),
    size_root,
  )
  rank_inside (suc (suc (suc (suc s)))) i lt four = absurd (omega arith)

  -- On a tree that holds `xs`, rank counts a symbol up to and including a position in range, and
  -- throws at a position out of range.
  pub rank_lem :
      (symbol i : ℕ)
      → symbol < 4
      → WaveletTree.rank B t symbol i
        ≡ (if ltb i (length xs) then some (Count.rank (is_symbol symbol) (i + 1) xs) else none)
  unfolding WaveletTree.rank
  rank_lem symbol i four = elim (dec_lt i (length xs)) [
    | yes lt ↦ rw (ltb-true i (length xs) lt) (rank_inside symbol i lt four)
    | no out ↦ ground (arith, size_root)
  ]
