-- ===== src/BitVector/Count.antt =====
-- Rank and select of a property on a plain sequence: what src/bitvector/bitvector.hpp documents
-- rank0, rank1, select0 and select1 to be.
pub mod Edits
use succinct_filesystem.Base.{
  ℕ, zero, suc, ◌+◌, ◌-◌, ◌≤◌, ◌<◌, ◌≡◌, refl, ap, sym, ◌∙◌, Bool, true, false, not, List, [], ◌∷◌,
  Option, none, some, arith, if◌then◌else◌, ◌==◌, Bool-cases, inl, inr, ◌++◌,
}
use succinct_filesystem.Base.Seq.{
  length, get_elem?, insert_at, remove_at, set, take, drop, length-insert_at,
}

abbrev pub one_if : Bool → ℕ
one_if true = 1
one_if false = 0

abbrev pub later : Option ℕ → Option ℕ
later none = none
later (some i) = some (suc i)

module _ {ℓ} {A : Type ℓ} (p : A → Bool) where
  -- How many of the first `n` entries have the property.
  abbrev pub rank : ℕ → List A → ℕ
  rank zero xs = 0
  rank (suc n) [] = 0
  rank (suc n) (x ∷ xs) = one_if (p x) + rank n xs

  -- The position of the `n`-th entry with the property, counted from 1.
  abbrev pub select : ℕ → List A → Option ℕ
  select n [] = none
  select n (x ∷ xs) =
      let rest = later (select (n - one_if (p x)) xs) in
      if p x then (if n == 1 then some 0 else rest) else rest

  pub rank-le : (n : ℕ) (xs : List A) → rank n xs ≤ n
  rank-le zero xs = omega arith
  rank-le (suc n) [] = omega arith
  rank-le (suc n) (x ∷ xs) = ground (arith, rank-le n xs)

  pub rank_mono : (m n : ℕ) (xs : List A) → m ≤ n → rank m xs ≤ rank n xs
  rank_mono zero n xs h = omega arith
  rank_mono (suc m) zero xs h = absurd (omega arith)
  rank_mono (suc m) (suc n) [] h = omega arith
  rank_mono (suc m) (suc n) (x ∷ xs) h = omega (arith, rank_mono m n xs (omega arith))

  pub rank-past : (n : ℕ) (xs : List A) → length xs ≤ n → rank n xs ≡ rank (length xs) xs
  rank-past zero [] h = refl
  rank-past zero (x ∷ xs) h = absurd (omega arith)
  rank-past (suc n) [] h = refl
  rank-past (suc n) (x ∷ xs) h = ap (λ (k : ℕ). one_if (p x) + k) (rank-past n xs (omega arith))

  pub rank-step :
      (i : ℕ) (xs : List A) (x : A)
      → get_elem? xs i ≡ some x
      → rank (suc i) xs ≡ rank i xs + one_if (p x)
  rank-step i [] x e = absurd (cc)
  rank-step zero (y ∷ xs) x e = ground arith
  rank-step (suc i) (y ∷ xs) x e = omega (arith, rank-step i xs x e)

  -- An entry that raises the rank has the property.
  pub hit :
      (xs : List A) (i : ℕ)
      → rank (suc i) xs ≡ rank i xs + 1
      → (x : A) × (get_elem? xs i ≡ some x) × (p x ≡ true)
  hit [] zero e = absurd (omega arith)
  hit [] (suc i) e = absurd (omega arith)
  hit (x ∷ xs) zero e = (x, refl, ground arith)
  hit (x ∷ xs) (suc i) e = hit xs i (omega arith)

  pub rank-next : (n : ℕ) (xs : List A) → rank (n + 1) xs ≡ rank (suc n) xs
  rank-next n xs = ap (λ (k : ℕ). rank k xs) {y = suc n} (omega arith)

  pub select-next : (n : ℕ) (xs : List A) → select (n + 1) xs ≡ select (suc n) xs
  select-next n xs = ap (λ (k : ℕ). select k xs) {y = suc n} (omega arith)

  -- A select that finds an entry finds the one with that rank.
  pub rank-select :
      (n : ℕ) (xs : List A) (i : ℕ)
      → 0 < n
      → select n xs ≡ some i
      → (i < length xs) × (rank i xs + 1 ≡ n) × (rank (suc i) xs ≡ n)
  rank-select n [] i pos e = absurd (cc)
  rank-select n (x ∷ xs) zero pos e = ground arith
  rank-select n (x ∷ xs) (suc i) pos e = ground (arith, rank-select (n - one_if (p x)) xs i)

  rank-pos :
      (xs : List A) (i : ℕ) (x : A) → get_elem? xs i ≡ some x → p x ≡ true → 0 < rank (suc i) xs
  rank-pos xs i x e h = ground (arith, rank-step i xs x e)

  -- An entry with the property is found under its rank.
  pub select-rank :
      (xs : List A) (i : ℕ) (x : A)
      → get_elem? xs i ≡ some x
      → p x ≡ true
      → select (rank (suc i) xs) xs ≡ some i
  select-rank [] i x e h = absurd (cc)
  select-rank (y ∷ xs) zero x e h = ground arith
  select-rank (y ∷ xs) (suc i) x e h = ground (arith, select-rank xs i x, rank-pos xs i x)

  -- A select fails exactly when there are too few entries.
  pub select-none : (n : ℕ) (xs : List A) → 0 < n → rank (length xs) xs < n → select n xs ≡ none
  select-none n [] pos h = refl
  select-none n (x ∷ xs) pos h = ground (arith, select-none (n - one_if (p x)) xs)

  pub select-some :
      (n : ℕ) (xs : List A) → 0 < n → n ≤ rank (length xs) xs → (i : ℕ) × (select n xs ≡ some i)
  select-some n [] pos h = absurd (omega arith)
  select-some n (x ∷ xs) pos h = elim (Bool-cases (p x)) [
    | inl hit ↦ elim (Bool-cases (n == 1)) [
      | inl last ↦ (0, ground arith)
      | inr more ↦
          let (i, found) = select-some (n - 1) xs (ground arith) (ground arith) in
          (suc i, ground arith)
    ]
    | inr miss ↦ let (i, found) = select-some n xs pos (ground arith) in (suc i, ground arith)
  ]
