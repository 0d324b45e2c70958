-- ===== src/Serial/Format.antt =====
-- The bytes that the serialize methods write with memcpy, and that the deserialize methods read, on a
-- little-endian machine. `*offset` is the place in the bytes: a deserialization gives what is left
-- behind it, and `none` where the buffer ends too early, which is undefined in C++.
use succinct_filesystem.Base.{
  ℕ, zero, suc, ◌+◌, ◌*◌, ◌/◌, ◌%◌, ◌^◌, ◌<◌, ◌≡◌, refl, ap, List, [], ◌∷◌, ◌++◌, Option, none,
  some, ◌>>=◌, arith, Option-cases, inl, inr,
}
use mathlib.Core.List.{append_assoc}
use succinct_filesystem.Base.Seq.{length, length-append}

-- An integer of `k` bytes.
pub to_bytes : ℕ → ℕ → List ℕ
to_bytes zero n = []
to_bytes (suc k) n = n % 256 ∷ to_bytes k (n / 256)

pub from_bytes : ℕ → List ℕ → Option (ℕ × List ℕ)
from_bytes zero bytes = some (0, bytes)
from_bytes (suc k) [] = none
from_bytes (suc k) (b ∷ bytes) =
    from_bytes k bytes >>= λ (r : ℕ × List ℕ). some (b + 256 * r.0, r.1)

pub length-to_bytes : (k n : ℕ) → length (to_bytes k n) ≡ k
unfolding to_bytes
length-to_bytes zero n = refl
length-to_bytes (suc k) n = ap suc (length-to_bytes k (n / 256))

pub from_bytes-to_bytes :
    (k n : ℕ) (rest : List ℕ) → n < 256 ^ k → from_bytes k (to_bytes k n ++ rest) ≡ some (n, rest)
unfolding to_bytes from_bytes
from_bytes-to_bytes zero n rest h =
    ap (λ (m : ℕ). some (m, rest)) {x = 0} {y = n} (omega (arith, h))
from_bytes-to_bytes (suc k) n rest h =
    rw (from_bytes-to_bytes k (n / 256) rest (omega (arith, h)))
      (ap (λ (m : ℕ). some (m, rest)) {y = n} (omega arith))

-- How the objects of a type are written and read back; `IsValid` are those of which it holds.
pub record Format (A : Type 0) : Type 1 where
  pub IsValid : A → Type 0
  pub serialize : A → List ℕ
  pub deserialize : List ℕ → Option (A × List ℕ)
  pub get_serialized_size : A → ℕ
  pub length-serialize : (a : A) → IsValid a → length (serialize a) ≡ get_serialized_size a
  pub deserialize-serialize :
      (a : A) (rest : List ℕ) → IsValid a → deserialize (serialize a ++ rest) ≡ some (a, rest)

abbrev pub All : {A : Type 0} → (A → Type 0) → List A → Type 0
All P [] = Unit
All P (x ∷ xs) = P x × All P xs

pub All-split :
    {A : Type 0} (P : A → Type 0) (xs ys : List A) → All P (xs ++ ys) → All P xs × All P ys
All-split P [] ys v = (tt, v)
All-split P (x ∷ xs) ys v = let rest = All-split P xs ys v.1 in ((v.0, rest.0), rest.1)

pub All-join :
    {A : Type 0} (P : A → Type 0) (xs ys : List A) → All P xs → All P ys → All P (xs ++ ys)
All-join P [] ys v w = w
All-join P (x ∷ xs) ys v w = (v.0, All-join P xs ys v.1 w)

-- The loops over the elements of a sequence; the reading one has the rounds left first.
module _ {A : Type 0} (F : Format A) where
  pub write_all : List A → List ℕ
  write_all [] = []
  write_all (x ∷ xs) = F.serialize x ++ write_all xs

  pub read_all : ℕ → List ℕ → Option (List A × List ℕ)
  read_all zero bytes = some ([], bytes)
  read_all (suc rounds) bytes = F.deserialize bytes >>= λ (r : A × List ℕ).
      read_all rounds r.1 >>= λ (s : List A × List ℕ). some (r.0 ∷ s.0, s.1)

  pub length-read_all :
      (n : ℕ) (bytes : List ℕ) (r : List A × List ℕ) → read_all n bytes ≡ some r → length r.0 ≡ n
  unfolding read_all
  length-read_all zero bytes r e = ground (arith, e)
  length-read_all (suc n) bytes r e = elim (Option-cases (F.deserialize bytes)) [
    | inl failed ↦ absurd (cc (rw failed at e))
    | inr (first, got) ↦
        let e' = rw got at e in
        elim (Option-cases (read_all n first.1)) [
          | inl failed ↦ absurd (cc (rw failed at e'))
          | inr (others, rest) ↦
              let e'' = rw rest at e' in ground (arith, length-read_all n first.1 others rest, e'')
        ]
  ]

  unfoldable pub size_all : List A → ℕ
  size_all [] = 0
  size_all (x ∷ xs) = F.get_serialized_size x + size_all xs

  pub length-write_all : (xs : List A) → All F.IsValid xs → length (write_all xs) ≡ size_all xs
  unfolding write_all size_all
  length-write_all [] v = refl
  length-write_all (x ∷ xs) v = omega (
    arith,
    length-append (F.serialize x) (write_all xs),
    F.length-serialize x v.0,
    length-write_all xs v.1,
  )

  pub read_all-write_all :
      (xs : List A) (rest : List ℕ)
      → All F.IsValid xs
      → read_all (length xs) (write_all xs ++ rest) ≡ some (xs, rest)
  unfolding read_all write_all
  read_all-write_all [] rest v = refl
  read_all-write_all (x ∷ xs) rest v =
      rw
        (
          append_assoc (F.serialize x) (write_all xs) rest,
          F.deserialize-serialize x (write_all xs ++ rest) v.0,
          read_all-write_all xs rest v.1,
        )
        refl

  -- A sequence behind its length, a size_t.
  pub serialize_sequence : List A → List ℕ
  serialize_sequence xs = to_bytes 8 (length xs) ++ write_all xs

  pub deserialize_sequence : List ℕ → Option (List A × List ℕ)
  deserialize_sequence bytes = from_bytes 8 bytes >>= λ (n : ℕ × List ℕ). read_all n.0 n.1

  pub length-serialize_sequence :
      (xs : List A) → All F.IsValid xs → length (serialize_sequence xs) ≡ 8 + size_all xs
  unfolding serialize_sequence
  length-serialize_sequence xs v = omega (
    arith,
    length-append (to_bytes 8 (length xs)) (write_all xs),
    length-to_bytes 8 (length xs),
    length-write_all xs v,
  )

  pub sequence_lem :
      (xs : List A) (rest : List ℕ)
      → length xs < 2 ^ 64
      → All F.IsValid xs
      → deserialize_sequence (serialize_sequence xs ++ rest) ≡ some (xs, rest)
  unfolding serialize_sequence deserialize_sequence
  sequence_lem xs rest small v =
      rw
        (
          append_assoc (to_bytes 8 (length xs)) (write_all xs) rest,
          from_bytes-to_bytes 8 (length xs) (write_all xs ++ rest) small,
        )
        (read_all-write_all xs rest v)

  -- Equal parts give equal bytes.
  pub write_all-same :
      (x y : A) (xs ys : List A)
      → F.serialize x ≡ F.serialize y
      → write_all xs ≡ write_all ys
      → write_all (x ∷ xs) ≡ write_all (y ∷ ys)
  unfolding write_all
  write_all-same x y xs ys e es = cc

  pub size_all-same :
      (x y : A) (xs ys : List A)
      → F.get_serialized_size x ≡ F.get_serialized_size y
      → size_all xs ≡ size_all ys
      → size_all (x ∷ xs) ≡ size_all (y ∷ ys)
  unfolding size_all
  size_all-same x y xs ys e es = cc

  pub sequence-same :
      (xs ys : List A)
      → length xs ≡ length ys
      → write_all xs ≡ write_all ys
      → serialize_sequence xs ≡ serialize_sequence ys
  unfolding serialize_sequence
  sequence-same xs ys e es = cc
