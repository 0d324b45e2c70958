-- ===== src/Base/Bytes.antt =====
-- Copies between byte buffers (memcpy), on lists.
use succinct_filesystem.Base.{
  ℕ, zero, suc, ◌+◌, ◌≤◌, ◌≡◌, refl, ap, sym, ◌∙◌, List, [], ◌∷◌, ◌++◌, arith,
}
use succinct_filesystem.Base.Seq.{
  length, take, drop, length-append, length-take, length-drop, drop_all,
}

module _ {ℓ} {A : Type ℓ} where
  -- `memcpy(buffer + offset, source, n)`, where `source` has `n` bytes and they fit.
  abbrev pub memcpy : List A → ℕ → List A → List A
  memcpy buffer offset source =
      take offset buffer ++ (source ++ drop (offset + length source) buffer)

  pub take-drop : (n : ℕ) (xs : List A) → take n xs ++ drop n xs ≡ xs
  take-drop zero xs = refl
  take-drop (suc n) [] = refl
  take-drop (suc n) (x ∷ xs) = ap (λ t. x ∷ t) (take-drop n xs)

  pub drop-drop : (a b : ℕ) (xs : List A) → drop b (drop a xs) ≡ drop (a + b) xs
  drop-drop zero b xs = ap (λ k. drop k xs) {x = b} (omega arith)
  drop-drop (suc a) b [] = drop_all b [] (omega arith) ∙ sym (drop_all (suc a + b) [] (omega arith))
  drop-drop (suc a) b (x ∷ xs) =
      drop-drop a b xs ∙ ap (λ k. drop k (x ∷ xs)) {x = suc (a + b)} (omega arith)

  pub take-append : (n : ℕ) (xs ys : List A) → n ≡ length xs → take n (xs ++ ys) ≡ xs
  take-append zero [] ys e = refl
  take-append zero (x ∷ xs) ys e = absurd (omega (arith, e))
  take-append (suc n) [] ys e = absurd (omega (arith, e))
  take-append (suc n) (x ∷ xs) ys e = ap (λ t. x ∷ t) (take-append n xs ys (omega (arith, e)))

  pub drop-append : (n : ℕ) (xs ys : List A) → n ≡ length xs → drop n (xs ++ ys) ≡ ys
  drop-append zero [] ys e = refl
  drop-append zero (x ∷ xs) ys e = absurd (omega (arith, e))
  drop-append (suc n) [] ys e = absurd (omega (arith, e))
  drop-append (suc n) (x ∷ xs) ys e = drop-append n xs ys (omega (arith, e))

  pub length-memcpy :
      (buffer : List A) (offset : ℕ) (source : List A)
      → offset + length source ≤ length buffer
      → length (memcpy buffer offset source) ≡ length buffer
  length-memcpy buffer offset source fits = omega (
    arith,
    length-append (take offset buffer) (source ++ drop (offset + length source) buffer),
    length-append source (drop (offset + length source) buffer),
    length-take offset buffer,
    length-drop (offset + length source) buffer,
  )

  -- What was copied to a place is read there.
  pub take-drop-memcpy :
      (buffer : List A) (offset n : ℕ) (source : List A)
      → offset + length source ≤ length buffer
      → n ≡ length source
      → take n (drop offset (memcpy buffer offset source)) ≡ source
  take-drop-memcpy buffer offset n source fits e =
      ap (take n) (
        drop-append offset (take offset buffer) (source ++ drop (offset + length source) buffer)
          (omega (arith, length-take offset buffer)))
      ∙ take-append n source (drop (offset + length source) buffer) e
