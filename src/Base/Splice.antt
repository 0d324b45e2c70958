-- ===== src/Base/Splice.antt =====
-- Vectors that are cut in two: where an operation at an index takes effect.
use succinct_filesystem.Base.{
  ℕ, zero, suc, ◌+◌, ◌≤◌, ◌<◌, ◌≡◌, refl, ap, ◌∙◌, List, [], ◌∷◌, ◌++◌, arith,
}
use succinct_filesystem.Base.Seq.{length, get_or, set, insert_at, remove_at, take, drop}

module _ {ℓ} {A : Type ℓ} where
  pub insert_at-append :
      (xs ys : List A) (k : ℕ) (v : A)
      → insert_at (xs ++ ys) (length xs + k) v ≡ xs ++ insert_at ys k v
  insert_at-append [] ys k v = ap (λ i. insert_at ys i v) {x = 0 + k} {y = k} (omega arith)
  insert_at-append (x ∷ xs) ys k v =
      ap (λ i. insert_at (x ∷ (xs ++ ys)) i v) {x = suc (length xs) + k} {y = suc (length xs + k)}
        (omega arith)
      ∙ ap (λ t. x ∷ t) (insert_at-append xs ys k v)

  pub insert_at-append_left :
      (xs ys : List A) (k : ℕ) (v : A)
      → k ≤ length xs
      → insert_at (xs ++ ys) k v ≡ insert_at xs k v ++ ys
  insert_at-append_left [] [] zero v h = refl
  insert_at-append_left [] (y ∷ ys) zero v h = refl
  insert_at-append_left [] ys (suc k) v h = absurd (omega arith)
  insert_at-append_left (x ∷ xs) ys zero v h = refl
  insert_at-append_left (x ∷ xs) ys (suc k) v h =
      ap (λ t. x ∷ t) (insert_at-append_left xs ys k v (omega arith))

  pub remove_at-append :
      (xs ys : List A) (k : ℕ) → remove_at (xs ++ ys) (length xs + k) ≡ xs ++ remove_at ys k
  remove_at-append [] ys k = ap (remove_at ys) {x = 0 + k} {y = k} (omega arith)
  remove_at-append (x ∷ xs) ys k =
      ap (remove_at (x ∷ (xs ++ ys))) {x = suc (length xs) + k} {y = suc (length xs + k)}
        (omega arith)
      ∙ ap (λ t. x ∷ t) (remove_at-append xs ys k)

  pub remove_at-append_left :
      (xs ys : List A) (k : ℕ) → k < length xs → remove_at (xs ++ ys) k ≡ remove_at xs k ++ ys
  remove_at-append_left [] ys k h = absurd (omega arith)
  remove_at-append_left (x ∷ xs) ys zero h = refl
  remove_at-append_left (x ∷ xs) ys (suc k) h =
      ap (λ t. x ∷ t) (remove_at-append_left xs ys k (omega arith))

  pub get_or-append :
      (xs ys : List A) (k : ℕ) (d : A) → get_or (xs ++ ys) (length xs + k) d ≡ get_or ys k d
  get_or-append [] ys k d = ap (λ i. get_or ys i d) {x = 0 + k} {y = k} (omega arith)
  get_or-append (x ∷ xs) ys k d =
      ap (λ i. get_or (x ∷ (xs ++ ys)) i d) {x = suc (length xs) + k} {y = suc (length xs + k)}
        (omega arith)
      ∙ get_or-append xs ys k d

  pub get_or-append_left :
      (xs ys : List A) (k : ℕ) (d : A) → k < length xs → get_or (xs ++ ys) k d ≡ get_or xs k d
  get_or-append_left [] ys k d h = absurd (omega arith)
  get_or-append_left (x ∷ xs) ys zero d h = refl
  get_or-append_left (x ∷ xs) ys (suc k) d h = get_or-append_left xs ys k d (omega arith)

  pub set-append :
      (xs ys : List A) (k : ℕ) (v : A) → set (xs ++ ys) (length xs + k) v ≡ xs ++ set ys k v
  set-append [] ys k v = ap (λ i. set ys i v) {x = 0 + k} {y = k} (omega arith)
  set-append (x ∷ xs) ys k v =
      ap (λ i. set (x ∷ (xs ++ ys)) i v) {x = suc (length xs) + k} {y = suc (length xs + k)}
        (omega arith)
      ∙ ap (λ t. x ∷ t) (set-append xs ys k v)

  pub set-append_left :
      (xs ys : List A) (k : ℕ) (v : A) → k < length xs → set (xs ++ ys) k v ≡ set xs k v ++ ys
  set-append_left [] ys k v h = absurd (omega arith)
  set-append_left (x ∷ xs) ys zero v h = refl
  set-append_left (x ∷ xs) ys (suc k) v h =
      ap (λ t. x ∷ t) (set-append_left xs ys k v (omega arith))

  -- The element between a prefix and a suffix.
  pub get_or-middle :
      (xs : List A) (y : A) (ys : List A) (d : A) → get_or (xs ++ y ∷ ys) (length xs) d ≡ y
  get_or-middle [] y ys d = refl
  get_or-middle (x ∷ xs) y ys d = get_or-middle xs y ys d

  pub set-middle :
      (xs : List A) (y : A) (ys : List A) (v : A) → set (xs ++ y ∷ ys) (length xs) v ≡ xs ++ v ∷ ys
  set-middle [] y ys v = refl
  set-middle (x ∷ xs) y ys v = ap (λ t. x ∷ t) (set-middle xs y ys v)

  pub remove_at-middle :
      (xs : List A) (y : A) (ys : List A) → remove_at (xs ++ y ∷ ys) (length xs) ≡ xs ++ ys
  remove_at-middle [] y ys = refl
  remove_at-middle (x ∷ xs) y ys = ap (λ t. x ∷ t) (remove_at-middle xs y ys)

  -- An operation inside the middle one of three parts.
  pub insert_at-part :
      (xs ys zs : List A) (k : ℕ) (v : A)
      → k ≤ length ys
      → insert_at (xs ++ (ys ++ zs)) (length xs + k) v ≡ xs ++ (insert_at ys k v ++ zs)
  insert_at-part xs ys zs k v h =
      insert_at-append xs (ys ++ zs) k v ∙ ap (λ t. xs ++ t) (insert_at-append_left ys zs k v h)

  pub remove_at-part :
      (xs ys zs : List A) (k : ℕ)
      → k < length ys
      → remove_at (xs ++ (ys ++ zs)) (length xs + k) ≡ xs ++ (remove_at ys k ++ zs)
  remove_at-part xs ys zs k h =
      remove_at-append xs (ys ++ zs) k ∙ ap (λ t. xs ++ t) (remove_at-append_left ys zs k h)

  pub get_or-part :
      (xs ys zs : List A) (k : ℕ) (d : A)
      → k < length ys
      → get_or (xs ++ (ys ++ zs)) (length xs + k) d ≡ get_or ys k d
  get_or-part xs ys zs k d h = get_or-append xs (ys ++ zs) k d ∙ get_or-append_left ys zs k d h

  pub set-part :
      (xs ys zs : List A) (k : ℕ) (v : A)
      → k < length ys
      → set (xs ++ (ys ++ zs)) (length xs + k) v ≡ xs ++ (set ys k v ++ zs)
  set-part xs ys zs k v h =
      set-append xs (ys ++ zs) k v ∙ ap (λ t. xs ++ t) (set-append_left ys zs k v h)

  pub take-middle :
      (xs : List A) (y : A) (ys : List A) → take (length xs + 1) (xs ++ y ∷ ys) ≡ xs ++ y ∷ []
  take-middle [] y ys = refl
  take-middle (x ∷ xs) y ys =
      ap (λ n. take n (x ∷ (xs ++ y ∷ ys))) {y = suc (length xs + 1)} (omega arith)
      ∙ ap (λ t. x ∷ t) (take-middle xs y ys)

  pub drop-middle : (xs : List A) (y : A) (ys : List A) → drop (length xs + 1) (xs ++ y ∷ ys) ≡ ys
  drop-middle [] y ys = refl
  drop-middle (x ∷ xs) y ys =
      ap (λ n. drop n (x ∷ (xs ++ y ∷ ys))) {y = suc (length xs + 1)} (omega arith)
      ∙ drop-middle xs y ys

  pub set-insert_at :
      (xs : List A) (i : ℕ) (u v : A)
      → i ≤ length xs
      → set (insert_at xs i u) i v ≡ insert_at xs i v
  set-insert_at [] zero u v h = refl
  set-insert_at [] (suc i) u v h = absurd (omega arith)
  set-insert_at (x ∷ xs) zero u v h = refl
  set-insert_at (x ∷ xs) (suc i) u v h = ap (λ t. x ∷ t) (set-insert_at xs i u v (omega arith))
