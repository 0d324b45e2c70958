-- ===== src/BitVector/Count/Edits.antt =====
-- Rank under insertion, removal and assignment.
use succinct_filesystem.Base.{
  ℕ, zero, suc, ◌+◌, ◌≤◌, ◌<◌, ◌≡◌, refl, Bool, List, [], ◌∷◌, some, arith,
}
use succinct_filesystem.Base.Seq.{length, get_elem?, insert_at, remove_at, set, insert_at-zero}
use succinct_filesystem.BitVector.Count.{rank, one_if}

module _ {ℓ} {A : Type ℓ} (p : A → Bool) where
  pub rank-insert_below :
      (n i : ℕ) (xs : List A) (v : A)
      → n ≤ i
      → i ≤ length xs
      → rank p n (insert_at xs i v) ≡ rank p n xs
  rank-insert_below zero i xs v h k = refl
  rank-insert_below (suc n) zero xs v h k = absurd (omega arith)
  rank-insert_below (suc n) (suc i) [] v h k = absurd (omega arith)
  rank-insert_below (suc n) (suc i) (x ∷ xs) v h k =
      omega (arith, rank-insert_below n i xs v (omega arith) (omega arith))

  pub rank-insert_above :
      (n i : ℕ) (xs : List A) (v : A)
      → i ≤ n
      → i ≤ length xs
      → rank p (suc n) (insert_at xs i v) ≡ rank p n xs + one_if (p v)
  rank-insert_above n zero xs v h k = ground (arith, insert_at-zero xs v)
  rank-insert_above zero (suc i) xs v h k = absurd (omega arith)
  rank-insert_above (suc n) (suc i) [] v h k = absurd (omega arith)
  rank-insert_above (suc n) (suc i) (x ∷ xs) v h k =
      omega (arith, rank-insert_above n i xs v (omega arith) (omega arith))

  pub rank-remove_below : (n i : ℕ) (xs : List A) → n ≤ i → rank p n (remove_at xs i) ≡ rank p n xs
  rank-remove_below zero i xs h = refl
  rank-remove_below (suc n) zero xs h = absurd (omega arith)
  rank-remove_below (suc n) (suc i) [] h = refl
  rank-remove_below (suc n) (suc i) (x ∷ xs) h =
      omega (arith, rank-remove_below n i xs (omega arith))

  pub rank-remove_above :
      (n i : ℕ) (xs : List A) (old : A)
      → i ≤ n
      → get_elem? xs i ≡ some old
      → rank p n (remove_at xs i) + one_if (p old) ≡ rank p (suc n) xs
  rank-remove_above n i [] old h e = absurd (cc)
  rank-remove_above n zero (x ∷ xs) old h e = ground arith
  rank-remove_above zero (suc i) (x ∷ xs) old h e = absurd (omega arith)
  rank-remove_above (suc n) (suc i) (x ∷ xs) old h e =
      omega (arith, rank-remove_above n i xs old (omega arith) e)

  pub rank-set_below : (n i : ℕ) (xs : List A) (v : A) → n ≤ i → rank p n (set xs i v) ≡ rank p n xs
  rank-set_below zero i xs v h = refl
  rank-set_below (suc n) zero xs v h = absurd (omega arith)
  rank-set_below (suc n) (suc i) [] v h = refl
  rank-set_below (suc n) (suc i) (x ∷ xs) v h = omega (arith, rank-set_below n i xs v (omega arith))

  pub rank-set_above :
      (n i : ℕ) (xs : List A) (v old : A)
      → i < n
      → get_elem? xs i ≡ some old
      → rank p n (set xs i v) + one_if (p old) ≡ rank p n xs + one_if (p v)
  rank-set_above n i [] v old h e = absurd (cc)
  rank-set_above zero i (x ∷ xs) v old h e = absurd (omega arith)
  rank-set_above (suc n) zero (x ∷ xs) v old h e = ground arith
  rank-set_above (suc n) (suc i) (x ∷ xs) v old h e =
      omega (arith, rank-set_above n i xs v old (omega arith) e)
