-- ===== src/Serial/Packed.antt =====
-- How an array bit vector is saved (src/bitvector/array_bitvector.cpp): its length, and its bits from
-- the highest of each byte on. serialize sets the bits in the bytes that the buffer has, which are
-- taken to be 0 here.
use Prim.Native.Nat.{bit_and, bit_or, max}
use succinct_filesystem.Base.{
  ℕ, zero, suc, ◌+◌, ◌-◌, ◌*◌, ◌/◌, ◌%◌, ◌^◌, ◌<◌, ◌≤◌, ◌≡◌, ◌≢◌, refl, ap, sym, ◌∙◌, Bool, false,
  List, [], ◌∷◌, ◌++◌, Option, some, none, ◌>>=◌, ◌==◌, ltb, if◌then◌else◌, arith,
}
use mathlib.Core.List.{append_assoc}
use native.Mathlib.Decide.{ℕ_discrete}
use succinct_filesystem.Base.Seq.{
  length, get_or, get_or-set_self, get_or-set_ne, set, drop, replicate, length-append, length-set,
  length-replicate,
}
use succinct_filesystem.Base.Bytes.{drop-append}
use succinct_filesystem.Base.Splice.{get_or-append_left}
use succinct_filesystem.Base.Digits.{
  digit, digit_lem, digit-or, digit-le, digit-zero, digit-shifted_self, digit-shifted_ne,
}
use succinct_filesystem.BitVector.Array.{ArrayBitVector}
use succinct_filesystem.Serial.Format.{
  Format, to_bytes, from_bytes, from_bytes-to_bytes, length-to_bytes,
}

-- `(bits[i] ? 1 : 0) << (7 - i % 8)`, or-ed into the byte of bit `i`.
unfoldable pub put_bit : List ℕ → ℕ → Bool → List ℕ
put_bit bytes i bit =
    set bytes (i / 8) (bit_or (get_or bytes (i / 8) 0) ((if bit then 1 else 0) * 2 ^ (7 - i % 8)))

pub get_bit : List ℕ → ℕ → Bool
get_bit bytes i = bit_and (get_or bytes (i / 8) 0 / 2 ^ (7 - i % 8)) 1 == 1

-- The loops from bit `i` on; the reading one has the rounds left first.
unfoldable pub put_bits : List Bool → ℕ → List ℕ → List ℕ
put_bits [] i bytes = bytes
put_bits (bit ∷ bits) i bytes = put_bits bits (i + 1) (put_bit bytes i bit)

pub get_bits : ℕ → ℕ → List ℕ → List Bool
get_bits zero i bytes = []
get_bits (suc rounds) i bytes = get_bit bytes i ∷ get_bits rounds (i + 1) bytes

pub serialize_bits : ArrayBitVector → List ℕ
serialize_bits b =
    to_bytes 8 (length b.bits) ++ put_bits b.bits 0 (replicate ((length b.bits + 7) / 8) 0)

pub deserialize_bits : List ℕ → Option (ArrayBitVector × List ℕ)
deserialize_bits bytes = from_bytes 8 bytes >>= λ (n : ℕ × List ℕ).
    if ltb (length n.1) ((n.0 + 7) / 8)
    then none
    else some (record { bits = get_bits n.0 0 n.1 }, drop ((n.0 + 7) / 8) n.1)

pub size_bits : ArrayBitVector → ℕ
size_bits b = 8 + (length b.bits + 7) / 8

get_bit_lem :
    (bytes : List ℕ) (i : ℕ) → get_bit bytes i ≡ (digit (7 - i % 8) (get_or bytes (i / 8) 0) == 1)
unfolding get_bit
get_bit_lem bytes i = ap (λ d. d == 1) (digit_lem (7 - i % 8) (get_or bytes (i / 8) 0))

-- A bit that was put where a clear one was is read there.
get-put_self :
    (bytes : List ℕ) (i : ℕ) (value : Bool)
    → i / 8 < length bytes
    → get_bit bytes i ≡ false
    → get_bit (put_bit bytes i value) i ≡ value
unfolding put_bit
get-put_self bytes i value inside clear =
    let byte = get_or bytes (i / 8) 0 in
    let bit = (if value then 1 else 0) * 2 ^ (7 - i % 8) in
    let old : (digit (7 - i % 8) byte == 1) ≡ false = sym (get_bit_lem bytes i) ∙ clear in
    get_bit_lem (put_bit bytes i value) i
    ∙ rw
        (
          get_or-set_self bytes (i / 8) (bit_or byte bit) 0 inside,
          digit-or (7 - i % 8) byte bit,
          digit-shifted_self (7 - i % 8) value,
        )
        (ground (arith, digit-le (7 - i % 8) byte))

-- The other bits stay.
get-put_ne :
    (bytes : List ℕ) (i j : ℕ) (value : Bool)
    → i / 8 < length bytes
    → i ≢ j
    → get_bit (put_bit bytes i value) j ≡ get_bit bytes j
unfolding put_bit
get-put_ne bytes i j value inside ne =
    let byte = get_or bytes (i / 8) 0 in
    let bit = (if value then 1 else 0) * 2 ^ (7 - i % 8) in
    let k = 7 - j % 8 in
    get_bit_lem (put_bit bytes i value) j
    ∙ elim (ℕ_discrete (i / 8) (j / 8)) [
      | no other ↦
          ap (λ x. digit k x == 1) (get_or-set_ne bytes (i / 8) (j / 8) (bit_or byte bit) 0 other)
      | yes same ↦
          let apart : k ≢ 7 - i % 8 = λ e. ne (omega (arith, e, same)) in
          rw
            (
              ← same,
              get_or-set_self bytes (i / 8) (bit_or byte bit) 0 inside,
              digit-or k byte bit,
              digit-shifted_ne k (7 - i % 8) value apart,
            )
            (ap (λ x. x == 1) {x = max (digit k byte) 0} (omega arith))
    ]
    ∙ sym (get_bit_lem bytes j)

length-put_bits :
    (bits : List Bool) (i : ℕ) (bytes : List ℕ) → length (put_bits bits i bytes) ≡ length bytes
unfolding put_bits put_bit
length-put_bits [] i bytes = refl
length-put_bits (bit ∷ bits) i bytes =
    length-put_bits bits (i + 1) (put_bit bytes i bit) ∙ length-set bytes (i / 8) _

length-put_bit : (bytes : List ℕ) (i : ℕ) (bit : Bool) → length (put_bit bytes i bit) ≡ length bytes
unfolding put_bit
length-put_bit bytes i bit = length-set bytes (i / 8) _

-- The bits before those that are put stay.
get-put_bits_before :
    (bits : List Bool) (i j : ℕ) (bytes : List ℕ)
    → j < i
    → i + length bits ≤ 8 * length bytes
    → get_bit (put_bits bits i bytes) j ≡ get_bit bytes j
unfolding put_bits
get-put_bits_before [] i j bytes before fits = refl
get-put_bits_before (bit ∷ bits) i j bytes before fits =
    get-put_bits_before bits (i + 1) j (put_bit bytes i bit) (omega arith)
      (omega (arith, length-put_bit bytes i bit))
    ∙ get-put_ne bytes i j bit (omega arith) (λ e. absurd (omega (arith, e, before)))

-- The bits that are put where clear ones were are read there.
get-put_bits :
    (bits : List Bool) (i : ℕ) (bytes : List ℕ)
    → i + length bits ≤ 8 * length bytes
    → ((j : ℕ) → i ≤ j → get_bit bytes j ≡ false)
    → get_bits (length bits) i (put_bits bits i bytes) ≡ bits
unfolding put_bits get_bits
get-put_bits [] i bytes fits clear = refl
get-put_bits (bit ∷ bits) i bytes fits clear =
    let bytes' = put_bit bytes i bit in
    let same = length-put_bit bytes i bit in
    let first : get_bit (put_bits bits (i + 1) bytes') i ≡ bit =
      get-put_bits_before bits (i + 1) i bytes' (omega arith) (omega (arith, same))
      ∙ get-put_self bytes i bit (omega arith) (clear i (omega arith)) in
    rw
      (
        first,
        get-put_bits bits (i + 1) bytes' (omega (arith, same)) (λ j from.
            get-put_ne bytes i j bit (omega arith) (λ e. absurd (omega (arith, e, from)))
            ∙ clear j (omega arith)),
      )
      refl

-- What stands behind the bytes is not read.
get_bits-append :
    (n i : ℕ) (bytes rest : List ℕ)
    → i + n ≤ 8 * length bytes
    → get_bits n i (bytes ++ rest) ≡ get_bits n i bytes
unfolding get_bits get_bit
get_bits-append zero i bytes rest fits = refl
get_bits-append (suc n) i bytes rest fits =
    rw
      (
        get_or-append_left bytes rest (i / 8) 0 (omega arith),
        get_bits-append n (i + 1) bytes rest (omega arith),
      )
      refl

get_or-zeros : (n i : ℕ) → get_or {A = ℕ} (replicate n 0) i 0 ≡ 0
get_or-zeros zero i = refl
get_or-zeros (suc n) zero = refl
get_or-zeros (suc n) (suc i) = get_or-zeros n i

zeros-clear : (n j : ℕ) → get_bit (replicate n 0) j ≡ false
zeros-clear n j =
    get_bit_lem (replicate n 0) j ∙ rw (get_or-zeros n (j / 8), digit-zero (7 - j % 8)) refl

pub length-serialize_bits : (b : ArrayBitVector) → length (serialize_bits b) ≡ size_bits b
unfolding serialize_bits size_bits
length-serialize_bits b =
    let n = (length b.bits + 7) / 8 in
    omega (
      arith,
      length-append (to_bytes 8 (length b.bits)) (put_bits b.bits 0 (replicate n 0)),
      length-to_bytes 8 (length b.bits),
      length-put_bits b.bits 0 (replicate n 0),
      length-replicate {A = ℕ} n 0,
    )

-- An array bit vector is read back from the bytes that it was saved as in a clear buffer.
pub bits_lem :
    (b : ArrayBitVector) (rest : List ℕ)
    → length b.bits < 2 ^ 64
    → deserialize_bits (serialize_bits b ++ rest) ≡ some (b, rest)
unfolding serialize_bits deserialize_bits
bits_lem b rest few =
    let m = length b.bits in
    let n = (m + 7) / 8 in
    let zeros : List ℕ = replicate n 0 in
    let bytes = put_bits b.bits 0 zeros in
    let whole : length bytes ≡ n = length-put_bits b.bits 0 zeros ∙ length-replicate {A = ℕ} n 0 in
    let there : ltb (length (bytes ++ rest)) n ≡ false =
      ground (arith, length-append bytes rest, whole) in
    rw
      (
        append_assoc (to_bytes 8 m) bytes rest,
        from_bytes-to_bytes 8 m (bytes ++ rest) few,
        there,
        get_bits-append m 0 bytes rest (omega (arith, whole)),
        get-put_bits b.bits 0 zeros (omega (arith, length-replicate {A = ℕ} n 0))
            (λ j _. zeros-clear n j),
        drop-append n bytes rest (sym whole),
      )
      refl

pub length-packed :
    (b : ArrayBitVector) → length b.bits < 2 ^ 64 → length (serialize_bits b) ≡ size_bits b
length-packed b few = length-serialize_bits b

abbrev pub packed_format : Format ArrayBitVector
packed_format = record {
  IsValid = λ b. length b.bits < 2 ^ 64;
  serialize = serialize_bits;
  deserialize = deserialize_bits;
  get_serialized_size = size_bits;
  length-serialize = length-packed;
  deserialize-serialize = bits_lem;
}
