-- ===== src/WaveletTree/Split.antt =====
-- How a sequence of symbols is spread over the three bit sequences
-- (src/wavelet_tree/two_bit_wavelet_tree.hpp).
use succinct_filesystem.Base.{
  ℕ, zero, suc, ◌+◌, ◌-◌, ◌≤◌, ◌<◌, ◌≡◌, refl, ap, Bool, false, List, [], ◌∷◌, arith, ltb, leb,
  ◌==◌, if◌then◌else◌, ◌>>=◌,
}
use succinct_filesystem.Base.Seq.{length, get_or, insert_at, remove_at, insert_at-zero}
use succinct_filesystem.BitVector.{ones, zeros}
use succinct_filesystem.BitVector.Count.{rank, select, one_if}

-- The root bit says whether the symbol is 2 or 3.
abbrev pub roots : List ℕ → List Bool
roots [] = []
roots (s ∷ xs) = leb 2 s ∷ roots xs

-- The left child has a bit for each 0 (false) and 1 (true), in order.
abbrev pub lefts : List ℕ → List Bool
lefts [] = []
lefts (s ∷ xs) = if ltb s 2 then (s == 1) ∷ lefts xs else lefts xs

-- The right child has a bit for each 2 (false) and 3 (true), in order.
abbrev pub rights : List ℕ → List Bool
rights [] = []
rights (s ∷ xs) = if ltb s 2 then rights xs else (s == 3) ∷ rights xs

abbrev pub is_symbol : ℕ → ℕ → Bool
is_symbol symbol s = s == symbol

abbrev pub AllSymbols : List ℕ → Type 0
AllSymbols [] = Unit
AllSymbols (s ∷ xs) = (s < 4) × AllSymbols xs

pub length-roots : (xs : List ℕ) → length (roots xs) ≡ length xs
length-roots [] = refl
length-roots (s ∷ xs) = ap suc (length-roots xs)

pub length-lefts : (xs : List ℕ) → length (lefts xs) ≡ rank zeros (length (roots xs)) (roots xs)
length-lefts [] = refl
length-lefts (s ∷ xs) = ground (arith, length-lefts xs)

pub length-rights : (xs : List ℕ) → length (rights xs) ≡ rank ones (length (roots xs)) (roots xs)
length-rights [] = refl
length-rights (s ∷ xs) = ground (arith, length-rights xs)

-- A child's entry is found under the rank of the root bit.
pub lefts-rank :
    (xs : List ℕ) (i : ℕ)
    → i < length xs
    → get_or xs i 0 < 2
    → (0 < rank zeros (suc i) (roots xs))
      × (rank zeros (suc i) (roots xs) ≤ length (lefts xs))
      × (get_or (lefts xs) (rank zeros (suc i) (roots xs) - 1) false ≡ (get_or xs i 0 == 1))
lefts-rank [] i h low = absurd (omega arith)
lefts-rank (s ∷ xs) zero h low = ground arith
lefts-rank (s ∷ xs) (suc i) h low = ground (arith, lefts-rank xs i)

pub rights-rank :
    (xs : List ℕ) (i : ℕ)
    → i < length xs
    → 2 ≤ get_or xs i 0
    → (0 < rank ones (suc i) (roots xs))
      × (rank ones (suc i) (roots xs) ≤ length (rights xs))
      × (get_or (rights xs) (rank ones (suc i) (roots xs) - 1) false ≡ (get_or xs i 0 == 3))
rights-rank [] i h low = absurd (omega arith)
rights-rank (s ∷ xs) zero h low = ground arith
rights-rank (s ∷ xs) (suc i) h low = ground (arith, rights-rank xs i)

pub roots-get :
    (xs : List ℕ) (i : ℕ) → i < length xs → get_or (roots xs) i false ≡ leb 2 (get_or xs i 0)
roots-get [] i h = absurd (omega arith)
roots-get (s ∷ xs) zero h = refl
roots-get (s ∷ xs) (suc i) h = roots-get xs i (omega arith)

pub roots-insert :
    (xs : List ℕ) (i s : ℕ) → roots (insert_at xs i s) ≡ insert_at (roots xs) i (leb 2 s)
roots-insert [] i s = refl
roots-insert (x ∷ xs) zero s = refl
roots-insert (x ∷ xs) (suc i) s = ap (◌∷◌ (leb 2 x)) (roots-insert xs i s)

pub lefts-insert :
    (xs : List ℕ) (i s : ℕ)
    → i ≤ length xs
    → lefts (insert_at xs i s)
      ≡ (if ltb s 2 then insert_at (lefts xs) (rank zeros i (roots xs)) (s == 1) else lefts xs)
lefts-insert [] zero s h = ground arith
lefts-insert [] (suc i) s h = absurd (omega arith)
lefts-insert (x ∷ xs) zero s h = ground (arith, insert_at-zero (lefts (x ∷ xs)) (s == 1))
lefts-insert (x ∷ xs) (suc i) s h = ground (arith, lefts-insert xs i s)

pub rights-insert :
    (xs : List ℕ) (i s : ℕ)
    → i ≤ length xs
    → rights (insert_at xs i s)
      ≡ (if ltb s 2 then rights xs else insert_at (rights xs) (rank ones i (roots xs)) (s == 3))
rights-insert [] zero s h = ground arith
rights-insert [] (suc i) s h = absurd (omega arith)
rights-insert (x ∷ xs) zero s h = ground (arith, insert_at-zero (rights (x ∷ xs)) (s == 3))
rights-insert (x ∷ xs) (suc i) s h = ground (arith, rights-insert xs i s)

pub roots-remove : (xs : List ℕ) (i : ℕ) → roots (remove_at xs i) ≡ remove_at (roots xs) i
roots-remove [] i = refl
roots-remove (x ∷ xs) zero = refl
roots-remove (x ∷ xs) (suc i) = ap (◌∷◌ (leb 2 x)) (roots-remove xs i)

pub lefts-remove :
    (xs : List ℕ) (i : ℕ)
    → i < length xs
    → lefts (remove_at xs i)
      ≡ (if ltb (get_or xs i 0) 2 then remove_at (lefts xs) (rank zeros i (roots xs)) else lefts xs)
lefts-remove [] i h = absurd (omega arith)
lefts-remove (x ∷ xs) zero h = ground arith
lefts-remove (x ∷ xs) (suc i) h = ground (arith, lefts-remove xs i)

pub rights-remove :
    (xs : List ℕ) (i : ℕ)
    → i < length xs
    → rights (remove_at xs i) ≡ (
        if ltb (get_or xs i 0) 2 then rights xs else remove_at (rights xs) (rank ones i (roots xs)))
rights-remove [] i h = absurd (omega arith)
rights-remove (x ∷ xs) zero h = ground arith
rights-remove (x ∷ xs) (suc i) h = ground (arith, rights-remove xs i)

-- The rank of a symbol is a rank in a child at a rank in the root.
pub rank-split :
    (n : ℕ) (xs : List ℕ)
    → AllSymbols xs
    → (rank (is_symbol 0) n xs ≡ rank zeros (rank zeros n (roots xs)) (lefts xs))
      × (rank (is_symbol 1) n xs ≡ rank ones (rank zeros n (roots xs)) (lefts xs))
      × (rank (is_symbol 2) n xs ≡ rank zeros (rank ones n (roots xs)) (rights xs))
      × (rank (is_symbol 3) n xs ≡ rank ones (rank ones n (roots xs)) (rights xs))
rank-split zero xs a = omega arith
rank-split (suc n) [] a = omega arith
rank-split (suc n) (zero ∷ xs) a = ground (arith, rank-split n xs a.1)
rank-split (suc n) (suc zero ∷ xs) a = ground (arith, rank-split n xs a.1)
rank-split (suc n) (suc (suc zero) ∷ xs) a = ground (arith, rank-split n xs a.1)
rank-split (suc n) (suc (suc (suc zero)) ∷ xs) a = ground (arith, rank-split n xs a.1)
rank-split (suc n) (suc (suc (suc (suc x))) ∷ xs) a = absurd (omega arith)

-- The position of a symbol is a position in the root of a position in a child.

pub select_zero-split :
    (n : ℕ) (xs : List ℕ)
    → 0 < n
    → AllSymbols xs
    → select (is_symbol 0) n xs
      ≡ (select zeros n (lefts xs) >>= λ k. select zeros (k + 1) (roots xs))
select_zero-split n [] pos a = refl
select_zero-split n (x ∷ xs) pos a = ground (arith, select_zero-split (n - one_if (x == 0)) xs)

pub select_one-split :
    (n : ℕ) (xs : List ℕ)
    → 0 < n
    → AllSymbols xs
    → select (is_symbol 1) n xs
      ≡ (select ones n (lefts xs) >>= λ k. select zeros (k + 1) (roots xs))
select_one-split n [] pos a = refl
select_one-split n (x ∷ xs) pos a = ground (arith, select_one-split (n - one_if (x == 1)) xs)

pub select_two-split :
    (n : ℕ) (xs : List ℕ)
    → 0 < n
    → AllSymbols xs
    → select (is_symbol 2) n xs
      ≡ (select zeros n (rights xs) >>= λ k. select ones (k + 1) (roots xs))
select_two-split n [] pos a = refl
select_two-split n (x ∷ xs) pos a = ground (arith, select_two-split (n - one_if (x == 2)) xs)

pub select_three-split :
    (n : ℕ) (xs : List ℕ)
    → 0 < n
    → AllSymbols xs
    → select (is_symbol 3) n xs
      ≡ (select ones n (rights xs) >>= λ k. select ones (k + 1) (roots xs))
select_three-split n [] pos a = refl
select_three-split n (x ∷ xs) pos a = ground (arith, select_three-split (n - one_if (x == 3)) xs)
