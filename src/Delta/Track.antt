-- ===== src/Delta/Track.antt =====
-- The edits that the log describes, as operations on a sequence of nodes, and how `replay` follows
-- a node through them (src/fsm/delta/delta_stabilization.hpp).
use succinct_filesystem.Base.{
  ℕ, zero, suc, ◌+◌, ◌-◌, ◌^◌, ◌≤◌, ◌<◌, ◌≡◌, ◌≢◌, refl, true, false, List, [], ◌∷◌, Option, none,
  some, arith, ◌>>=◌, sym, ◌∙◌, ◌⊎◌, inl, inr, map,
}
use native.Mathlib.Decide.{dec_lt, ℕ_discrete}
use succinct_filesystem.Base.Seq.{
  length, get_elem?, insert_at, remove_at, get_elem?-lt, length-insert_at, length-remove_at,
  get_elem?-insert_at_below, get_elem?-insert_at_self, get_elem?-insert_at_above,
  get_elem?-remove_at_below, get_elem?-remove_at_above,
}
use succinct_filesystem.Delta.{DeltaOperation, adjust, replay}

-- What happens to the sequence of nodes: the caller of `record_insert` has inserted a node at that
-- position, the caller of `record_remove` removes the one there.
pub data Edit {ℓ} (A : Type ℓ) : Type ℓ where
  insert : ℕ → A → Edit A
  remove : ℕ → Edit A

adjust-insert_below : (i p : ℕ) → p < i → adjust (record { is_insert = true; inode = i }) p ≡ some p
unfolding adjust
adjust-insert_below i p h = ground arith

adjust-insert_above :
    (i p : ℕ)
    → i ≤ p
    → p + 1 < 2 ^ 64
    → adjust (record { is_insert = true; inode = i }) p ≡ some (suc p)
unfolding adjust
adjust-insert_above i p h small = ground arith

adjust-remove_below :
    (i p : ℕ) → p < i → adjust (record { is_insert = false; inode = i }) p ≡ some p
unfolding adjust
adjust-remove_below i p h = ground arith

adjust-remove_self : (i p : ℕ) → i ≡ p → adjust (record { is_insert = false; inode = i }) p ≡ none
unfolding adjust
adjust-remove_self i p h = ground arith

adjust-remove_above :
    (i p : ℕ) → i < p → adjust (record { is_insert = false; inode = i }) p ≡ some (p - 1)
unfolding adjust
adjust-remove_above i p h = ground arith

sub_one : (p : ℕ) → suc p - 1 ≡ p
sub_one p = omega arith

module _ {ℓ} {A : Type ℓ} where
  abbrev pub apply : List A → Edit A → List A
  apply xs (insert i v) = insert_at xs i v
  apply xs (remove i) = remove_at xs i

  abbrev pub apply_all : List A → List (Edit A) → List A
  apply_all xs [] = xs
  apply_all xs (e ∷ es) = apply_all (apply xs e) es

  abbrev pub to_operation : Edit A → DeltaOperation
  to_operation (insert i v) = record { is_insert = true; inode = i }
  to_operation (remove i) = record { is_insert = false; inode = i }

  abbrev pub Fits : List A → Edit A → Type 0
  Fits xs (insert i v) = i ≤ length xs
  Fits xs (remove i) = i < length xs

  abbrev pub AllFit : List A → List (Edit A) → Type 0
  AllFit xs [] = Unit
  AllFit xs (e ∷ es) = Fits xs e × AllFit (apply xs e) es

  -- The edit does not insert `a` a second time.
  abbrev pub Spares : A → Edit A → Type ℓ
  Spares a (insert i v) = v ≢ a
  Spares a (remove i) = Unit

  abbrev pub AllSpare : A → List (Edit A) → Type ℓ
  AllSpare a [] = Unit
  AllSpare a (e ∷ es) = Spares a e × AllSpare a es

  -- `a` stands at `p` and nowhere else; at `none` it stands nowhere.
  abbrev pub Located : A → List A → Option ℕ → Type ℓ
  Located a xs none = (j : ℕ) → get_elem? xs j ≢ some a
  Located a xs (some p) = (get_elem? xs p ≡ some a) × ((j : ℕ) → get_elem? xs j ≡ some a → j ≡ p)

  -- Where an old element that is found after an insertion was before it.
  insert_source :
      (xs : List A) (i j : ℕ) (v : A) {a : A}
      → i ≤ length xs
      → v ≢ a
      → get_elem? (insert_at xs i v) j ≡ some a
      → ((j < i) × (get_elem? xs j ≡ some a))
        ⊎ ((k : ℕ) × (j ≡ suc k) × (i ≤ k) × (get_elem? xs k ≡ some a))
  insert_source xs i zero v fit new e = elim (ℕ_discrete i 0) [
    | yes z ↦ ground (arith, get_elem?-insert_at_self xs i v fit)
    | no p ↦ inl (omega arith, sym (get_elem?-insert_at_below xs i 0 v fit (omega arith)) ∙ e)
  ]
  insert_source xs i (suc j) v fit new e = elim (dec_lt (suc j) i) [
    | yes p ↦ inl (p, sym (get_elem?-insert_at_below xs i (suc j) v fit p) ∙ e)
    | no p ↦ elim (ℕ_discrete i (suc j)) [
      | yes z ↦ ground (arith, get_elem?-insert_at_self xs i v fit)
      | no q ↦
          inr (j, refl, omega arith, sym (get_elem?-insert_at_above xs i j v (omega arith)) ∙ e)
    ]
  ]

  above_remove :
      (xs : List A) (i p : ℕ) (a : A)
      → i < p
      → Located a xs (some p)
      → Located a (remove_at xs i) (some (p - 1))
  above_remove xs i zero a after h = absurd (omega arith)
  above_remove xs i (suc p) a after h = rw (sub_one p) (
    get_elem?-remove_at_above xs i p (omega arith) ∙ h.0,
    λ j found. elim (dec_lt j i) [
      | yes q ↦ absurd (omega (arith, h.1 j (sym (get_elem?-remove_at_below xs i j q) ∙ found)))
      | no q ↦
          omega (arith, h.1 (suc j) (sym (get_elem?-remove_at_above xs i j (omega arith)) ∙ found))
    ],
  )

  -- One round of the loop follows the node.
  adjust-Located :
      (xs : List A) (e : Edit A) (a : A) (p : ℕ)
      → Fits xs e
      → Spares a e
      → p + 1 < 2 ^ 64
      → Located a xs (some p)
      → Located a (apply xs e) (adjust (to_operation e) p)
  adjust-Located xs (insert i v) a p fit new small h = elim (dec_lt p i) [
    | yes below ↦ rw (adjust-insert_below i p below) (
      get_elem?-insert_at_below xs i p v fit below ∙ h.0,
      λ j found. elim (insert_source xs i j v fit new found) [
        | inl (_, old) ↦ h.1 j old
        | inr (k, _, after, old) ↦ absurd (omega (arith, h.1 k old))
      ],
    )
    | no above ↦ rw (adjust-insert_above i p (omega arith) small) (
      get_elem?-insert_at_above xs i p v (omega arith) ∙ h.0,
      λ j found. elim (insert_source xs i j v fit new found) [
        | inl (before, old) ↦ absurd (omega (arith, h.1 j old))
        | inr (k, next, _, old) ↦ omega (arith, h.1 k old)
      ],
    )
  ]
  adjust-Located xs (remove i) a p fit new small h = elim (dec_lt p i) [
    | yes below ↦ rw (adjust-remove_below i p below) (
      get_elem?-remove_at_below xs i p below ∙ h.0,
      λ j found. elim (dec_lt j i) [
        | yes q ↦ h.1 j (sym (get_elem?-remove_at_below xs i j q) ∙ found)
        | no q ↦ absurd (
            omega
              (arith, h.1 (suc j) (sym (get_elem?-remove_at_above xs i j (omega arith)) ∙ found)))
      ],
    )
    | no q ↦ elim (ℕ_discrete i p) [
      | yes z ↦ rw (adjust-remove_self i p z) λ j found. elim (dec_lt j i) [
        | yes q ↦ omega (arith, h.1 j (sym (get_elem?-remove_at_below xs i j q) ∙ found))
        | no q ↦
            omega
              (arith, h.1 (suc j) (sym (get_elem?-remove_at_above xs i j (omega arith)) ∙ found))
      ]
      | no z ↦ rw (adjust-remove_above i p (omega arith)) (above_remove xs i p a (omega arith) h)
    ]
  ]

  -- What is nowhere stays nowhere.
  absent-apply :
      (xs : List A) (e : Edit A) (a : A)
      → Fits xs e
      → Spares a e
      → Located a xs none
      → Located a (apply xs e) none
  absent-apply xs (insert i v) a fit new h = λ j found.
      elim (insert_source xs i j v fit new found) [
        | inl (_, old) ↦ h j old
        | inr (k, _, _, old) ↦ h k old
      ]
  absent-apply xs (remove i) a fit new h = λ j found. elim (dec_lt j i) [
    | yes below ↦ h j (sym (get_elem?-remove_at_below xs i j below) ∙ found)
    | no above ↦ h (suc j) (sym (get_elem?-remove_at_above xs i j (omega arith)) ∙ found)
  ]

  absent-apply_all :
      (xs : List A) (es : List (Edit A)) (a : A)
      → AllFit xs es
      → AllSpare a es
      → Located a xs none
      → Located a (apply_all xs es) none
  absent-apply_all xs [] a fit new h = h
  absent-apply_all xs (e ∷ es) a fit new h =
      absent-apply_all (apply xs e) es a fit.1 new.1 (absent-apply xs e a fit.0 new.0 h)

  length-apply : (xs : List A) (e : Edit A) → Fits xs e → length (apply xs e) ≤ length xs + 1
  length-apply xs (insert i v) fit = omega (arith, length-insert_at xs i v)
  length-apply xs (remove i) fit = omega (arith, length-remove_at xs i fit)

  follow :
      (xs : List A) (es : List (Edit A)) (a : A) (o : Option ℕ)
      → AllFit xs es
      → AllSpare a es
      → length xs + length es < 2 ^ 64
      → Located a xs o
      → Located a (apply_all xs es) (o >>= replay (map to_operation es))
  unfolding replay
  follow xs [] a none fit new small h = h
  follow xs [] a (some p) fit new small h = h
  follow xs (e ∷ es) a none fit new small h = absent-apply_all xs (e ∷ es) a fit new h
  follow xs (e ∷ es) a (some p) fit new small h =
      follow (apply xs e) es a (adjust (to_operation e) p) fit.1 new.1
        (omega (arith, length-apply xs e fit.0))
        (adjust-Located xs e a p fit.0 new.0 (omega (arith, get_elem?-lt xs p h.0)) h)

  -- Take a sequence of nodes in which `a` stands at `p` and nowhere else, and edits that are in
  -- range, insert no second `a`, and cannot make the sequence 2^64 long. If the replay of their log
  -- gives a position, `a` stands there after the edits and nowhere else; if it gives none, `a` is
  -- gone.
  pub replay_follows :
      (xs : List A) (es : List (Edit A)) (a : A) (p : ℕ)
      → AllFit xs es
      → AllSpare a es
      → length xs + length es < 2 ^ 64
      → Located a xs (some p)
      → Located a (apply_all xs es) (replay (map to_operation es) p)
  replay_follows xs es a p fit new small h = follow xs es a (some p) fit new small h
