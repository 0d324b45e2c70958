-- ===== src/Base/Seq.antt =====
-- Sequences under native indices: `std::vector` and its element-wise operations.
use Prim.Native.Nat.{ℕ, zero, suc, ◌+◌, ◌-◌, ◌≤◌, ◌<◌, min}
use mathlib.Core.Path.{◌≡◌, refl, ap}
use mathlib.Core.Logic.{◌≢◌}
use mathlib.Core.List.{List, [], ◌∷◌, ◌++◌}
use mathlib.Core.Option.{Option, none, some}
use native.Mathlib.Omega.{arith}

module _ {ℓ} {A : Type ℓ} where
  abbrev pub length : List A → ℕ
  length [] = 0
  length (x ∷ xs) = suc (length xs)

  abbrev pub get_elem? : List A → ℕ → Option A
  get_elem? [] i = none
  get_elem? (x ∷ xs) zero = some x
  get_elem? (x ∷ xs) (suc i) = get_elem? xs i

  abbrev pub get_or : List A → ℕ → A → A
  get_or [] i d = d
  get_or (x ∷ xs) zero d = x
  get_or (x ∷ xs) (suc i) d = get_or xs i d

  -- `v[i] = x`; out of range nothing changes.
  abbrev pub set : List A → ℕ → A → List A
  set [] i v = []
  set (x ∷ xs) zero v = v ∷ xs
  set (x ∷ xs) (suc i) v = x ∷ set xs i v

  -- `v.insert(v.begin() + i, x)`; past the end it appends.
  abbrev pub insert_at : List A → ℕ → A → List A
  insert_at [] i v = v ∷ []
  insert_at (x ∷ xs) zero v = v ∷ x ∷ xs
  insert_at (x ∷ xs) (suc i) v = x ∷ insert_at xs i v

  -- `v.erase(v.begin() + i)`; out of range nothing changes.
  abbrev pub remove_at : List A → ℕ → List A
  remove_at [] i = []
  remove_at (x ∷ xs) zero = xs
  remove_at (x ∷ xs) (suc i) = x ∷ remove_at xs i

  abbrev pub take : ℕ → List A → List A
  take zero xs = []
  take (suc n) [] = []
  take (suc n) (x ∷ xs) = x ∷ take n xs

  abbrev pub drop : ℕ → List A → List A
  drop zero xs = xs
  drop (suc n) [] = []
  drop (suc n) (x ∷ xs) = drop n xs

  abbrev pub replicate : ℕ → A → List A
  replicate zero a = []
  replicate (suc n) a = a ∷ replicate n a

  pub length-append : (xs ys : List A) → length (xs ++ ys) ≡ length xs + length ys
  length-append [] ys = omega arith
  length-append (x ∷ xs) ys = omega (arith, length-append xs ys)

  pub length-set : (xs : List A) (i : ℕ) (v : A) → length (set xs i v) ≡ length xs
  length-set [] i v = refl
  length-set (x ∷ xs) zero v = refl
  length-set (x ∷ xs) (suc i) v = ap suc (length-set xs i v)

  pub length-insert_at : (xs : List A) (i : ℕ) (v : A) → length (insert_at xs i v) ≡ length xs + 1
  length-insert_at [] i v = refl
  length-insert_at (x ∷ xs) zero v = omega arith
  length-insert_at (x ∷ xs) (suc i) v = omega (arith, length-insert_at xs i v)

  pub length-remove_at :
      (xs : List A) (i : ℕ) → i < length xs → length (remove_at xs i) + 1 ≡ length xs
  length-remove_at [] i h = absurd (omega arith)
  length-remove_at (x ∷ xs) zero h = omega arith
  length-remove_at (x ∷ xs) (suc i) h = omega (arith, length-remove_at xs i (omega arith))

  pub length-take : (n : ℕ) (xs : List A) → length (take n xs) ≡ min n (length xs)
  length-take zero xs = omega arith
  length-take (suc n) [] = omega arith
  length-take (suc n) (x ∷ xs) = omega (arith, length-take n xs)

  pub length-drop : (n : ℕ) (xs : List A) → length (drop n xs) ≡ length xs - n
  length-drop zero xs = omega arith
  length-drop (suc n) [] = omega arith
  length-drop (suc n) (x ∷ xs) = omega (arith, length-drop n xs)

  pub length-replicate : (n : ℕ) (a : A) → length (replicate n a) ≡ n
  length-replicate zero a = refl
  length-replicate (suc n) a = ap suc (length-replicate n a)

  pub get_elem?-lt : (xs : List A) (i : ℕ) {a : A} → get_elem? xs i ≡ some a → i < length xs
  get_elem?-lt [] i e = absurd (cc)
  get_elem?-lt (x ∷ xs) zero e = omega arith
  get_elem?-lt (x ∷ xs) (suc i) e = omega (arith, get_elem?-lt xs i e)

  pub get_elem?-eq-get_or :
      (xs : List A) (i : ℕ) (d : A) → i < length xs → get_elem? xs i ≡ some (get_or xs i d)
  get_elem?-eq-get_or [] i d h = absurd (omega arith)
  get_elem?-eq-get_or (x ∷ xs) zero d h = refl
  get_elem?-eq-get_or (x ∷ xs) (suc i) d h = get_elem?-eq-get_or xs i d (omega arith)

  pub insert_at-zero : (xs : List A) (v : A) → insert_at xs 0 v ≡ v ∷ xs
  insert_at-zero [] v = refl
  insert_at-zero (x ∷ xs) v = refl

  pub insert_at-remove_at :
      (xs : List A) (i : ℕ) (v : A) → i < length xs → insert_at (remove_at xs i) i v ≡ set xs i v
  insert_at-remove_at [] i v h = absurd (omega arith)
  insert_at-remove_at (x ∷ xs) zero v h = insert_at-zero xs v
  insert_at-remove_at (x ∷ xs) (suc i) v h = ap (◌∷◌ x) (insert_at-remove_at xs i v (omega arith))

  -- Where an element goes when one is inserted at `i`.
  pub get_elem?-insert_at_below :
      (xs : List A) (i j : ℕ) (v : A)
      → i ≤ length xs
      → j < i
      → get_elem? (insert_at xs i v) j ≡ get_elem? xs j
  get_elem?-insert_at_below [] i j v h k = absurd (omega arith)
  get_elem?-insert_at_below (x ∷ xs) zero j v h k = absurd (omega arith)
  get_elem?-insert_at_below (x ∷ xs) (suc i) zero v h k = refl
  get_elem?-insert_at_below (x ∷ xs) (suc i) (suc j) v h k =
      get_elem?-insert_at_below xs i j v (omega arith) (omega arith)

  pub get_elem?-insert_at_self :
      (xs : List A) (i : ℕ) (v : A) → i ≤ length xs → get_elem? (insert_at xs i v) i ≡ some v
  get_elem?-insert_at_self [] zero v h = refl
  get_elem?-insert_at_self [] (suc i) v h = absurd (omega arith)
  get_elem?-insert_at_self (x ∷ xs) zero v h = refl
  get_elem?-insert_at_self (x ∷ xs) (suc i) v h = get_elem?-insert_at_self xs i v (omega arith)

  pub get_elem?-insert_at_above :
      (xs : List A) (i j : ℕ) (v : A)
      → i ≤ j
      → get_elem? (insert_at xs i v) (suc j) ≡ get_elem? xs j
  get_elem?-insert_at_above [] i j v h = refl
  get_elem?-insert_at_above (x ∷ xs) zero j v h = refl
  get_elem?-insert_at_above (x ∷ xs) (suc i) zero v h = absurd (omega arith)
  get_elem?-insert_at_above (x ∷ xs) (suc i) (suc j) v h =
      get_elem?-insert_at_above xs i j v (omega arith)

  -- Where an element goes when the one at `i` is removed.
  pub get_elem?-remove_at_below :
      (xs : List A) (i j : ℕ) → j < i → get_elem? (remove_at xs i) j ≡ get_elem? xs j
  get_elem?-remove_at_below [] i j h = refl
  get_elem?-remove_at_below (x ∷ xs) zero j h = absurd (omega arith)
  get_elem?-remove_at_below (x ∷ xs) (suc i) zero h = refl
  get_elem?-remove_at_below (x ∷ xs) (suc i) (suc j) h =
      get_elem?-remove_at_below xs i j (omega arith)

  pub get_elem?-remove_at_above :
      (xs : List A) (i j : ℕ) → i ≤ j → get_elem? (remove_at xs i) j ≡ get_elem? xs (suc j)
  get_elem?-remove_at_above [] i j h = refl
  get_elem?-remove_at_above (x ∷ xs) zero j h = refl
  get_elem?-remove_at_above (x ∷ xs) (suc i) zero h = absurd (omega arith)
  get_elem?-remove_at_above (x ∷ xs) (suc i) (suc j) h =
      get_elem?-remove_at_above xs i j (omega arith)

  pub drop-append_le :
      (n : ℕ) (xs ys : List A) → n ≤ length xs → drop n (xs ++ ys) ≡ drop n xs ++ ys
  drop-append_le zero xs ys h = refl
  drop-append_le (suc n) [] ys h = absurd (omega arith)
  drop-append_le (suc n) (x ∷ xs) ys h = drop-append_le n xs ys (omega arith)

  pub drop_all : (n : ℕ) (xs : List A) → length xs ≤ n → drop n xs ≡ []
  drop_all zero [] h = refl
  drop_all zero (x ∷ xs) h = absurd (omega arith)
  drop_all (suc n) [] h = refl
  drop_all (suc n) (x ∷ xs) h = drop_all n xs (omega arith)

  pub get_or-default :
      (xs : List A) (i : ℕ) (d e : A) → i < length xs → get_or xs i d ≡ get_or xs i e
  get_or-default [] i d e h = absurd (omega arith)
  get_or-default (x ∷ xs) zero d e h = refl
  get_or-default (x ∷ xs) (suc i) d e h = get_or-default xs i d e (omega arith)

  pub get_or-beyond : (xs : List A) (i : ℕ) (d : A) → length xs ≤ i → get_or xs i d ≡ d
  get_or-beyond [] i d h = refl
  get_or-beyond (x ∷ xs) zero d h = absurd (omega arith)
  get_or-beyond (x ∷ xs) (suc i) d h = get_or-beyond xs i d (omega arith)

  pub get_or-set_self :
      (xs : List A) (i : ℕ) (v d : A) → i < length xs → get_or (set xs i v) i d ≡ v
  get_or-set_self [] i v d h = absurd (omega arith)
  get_or-set_self (x ∷ xs) zero v d h = refl
  get_or-set_self (x ∷ xs) (suc i) v d h = get_or-set_self xs i v d (omega arith)

  pub get_elem?-set_self :
      (xs : List A) (i : ℕ) (v : A) → i < length xs → get_elem? (set xs i v) i ≡ some v
  get_elem?-set_self [] i v h = absurd (omega arith)
  get_elem?-set_self (x ∷ xs) zero v h = refl
  get_elem?-set_self (x ∷ xs) (suc i) v h = get_elem?-set_self xs i v (omega arith)

  pub get_or-set_ne :
      (xs : List A) (i j : ℕ) (v d : A) → i ≢ j → get_or (set xs i v) j d ≡ get_or xs j d
  get_or-set_ne [] i j v d h = refl
  get_or-set_ne (x ∷ xs) zero zero v d h = absurd (h refl)
  get_or-set_ne (x ∷ xs) zero (suc j) v d h = refl
  get_or-set_ne (x ∷ xs) (suc i) zero v d h = refl
  get_or-set_ne (x ∷ xs) (suc i) (suc j) v d h = get_or-set_ne xs i j v d (λ e. h (ap suc e))

  -- An insertion at the end.
  pub get_or-insert_end_self :
      (xs : List A) (v d : A) → get_or (insert_at xs (length xs) v) (length xs) d ≡ v
  get_or-insert_end_self [] v d = refl
  get_or-insert_end_self (x ∷ xs) v d = get_or-insert_end_self xs v d

  pub get_or-insert_end_ne :
      (xs : List A) (j : ℕ) (v d : A)
      → j ≢ length xs
      → get_or (insert_at xs (length xs) v) j d ≡ get_or xs j d
  get_or-insert_end_ne [] zero v d h = absurd (h refl)
  get_or-insert_end_ne [] (suc j) v d h = refl
  get_or-insert_end_ne (x ∷ xs) zero v d h = refl
  get_or-insert_end_ne (x ∷ xs) (suc j) v d h = get_or-insert_end_ne xs j v d (λ e. h (ap suc e))
