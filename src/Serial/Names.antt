-- ===== src/Serial/Names.antt =====
-- How the names are saved (src/name_sequence/array_name_sequence.cpp).
use succinct_filesystem.Base.{
  ℕ, ◌+◌, ◌^◌, ◌<◌, ◌≡◌, refl, List, ◌++◌, Option, none, some, ◌>>=◌, ltb, if◌then◌else◌, arith,
  false,
}
use mathlib.Core.List.{append_assoc}
use succinct_filesystem.Base.Seq.{length, take, drop, length-append}
use succinct_filesystem.Base.Bytes.{take-append, drop-append}
use succinct_filesystem.NameSequence.{Name}
use succinct_filesystem.NameSequence.Array.{ArrayNameSequence}
use succinct_filesystem.Serial.Format.{
  Format, All, to_bytes, from_bytes, from_bytes-to_bytes, length-to_bytes, size_all,
  serialize_sequence, deserialize_sequence, length-serialize_sequence, sequence_lem,
}

pub serialize_name : Name → List ℕ
serialize_name name = to_bytes 8 (length name) ++ name

pub deserialize_name : List ℕ → Option (Name × List ℕ)
deserialize_name bytes = from_bytes 8 bytes >>= λ (n : ℕ × List ℕ).
    if ltb (length n.1) n.0 then none else some (take n.0 n.1, drop n.0 n.1)

pub length-serialize_name :
    (name : Name) → length name < 2 ^ 64 → length (serialize_name name) ≡ 8 + length name
unfolding serialize_name
length-serialize_name name h =
    omega (arith, length-append (to_bytes 8 (length name)) name, length-to_bytes 8 (length name))

pub name_back :
    (name : Name) (rest : List ℕ)
    → length name < 2 ^ 64
    → deserialize_name (serialize_name name ++ rest) ≡ some (name, rest)
unfolding serialize_name deserialize_name
name_back name rest h =
    let enough : ltb (length (name ++ rest)) (length name) ≡ false =
      ground (arith, length-append name rest) in
    rw
      (
        append_assoc (to_bytes 8 (length name)) name rest,
        from_bytes-to_bytes 8 (length name) (name ++ rest) h,
        enough,
        take-append (length name) name rest refl,
        drop-append (length name) name rest refl,
      )
      refl

abbrev pub name_format : Format Name
name_format = record {
  IsValid = λ name. length name < 2 ^ 64;
  serialize = serialize_name;
  deserialize = deserialize_name;
  get_serialized_size = λ name. 8 + length name;
  length-serialize = length-serialize_name;
  deserialize-serialize = name_back;
}

-- There are not 2^64 names, and none is of 2^64 bytes.
pub record IsNames (s : ArrayNameSequence) : Type 0 where
  pub few : length s.names < 2 ^ 64
  pub short : All (λ name. length name < 2 ^ 64) s.names

pub serialize_names : ArrayNameSequence → List ℕ
serialize_names s = serialize_sequence name_format s.names

pub deserialize_names : List ℕ → Option (ArrayNameSequence × List ℕ)
deserialize_names bytes = deserialize_sequence name_format bytes >>= λ (r : List Name × List ℕ).
    some (record { names = r.0 }, r.1)

pub size_names : ArrayNameSequence → ℕ
size_names s = 8 + size_all name_format s.names

pub length-serialize_names :
    (s : ArrayNameSequence) → IsNames s → length (serialize_names s) ≡ size_names s
unfolding serialize_names size_names
length-serialize_names s v = length-serialize_sequence name_format s.names v.short

-- The names are read back from the bytes that they were saved as.
pub names_lem :
    (s : ArrayNameSequence) (rest : List ℕ)
    → IsNames s
    → deserialize_names (serialize_names s ++ rest) ≡ some (s, rest)
unfolding serialize_names deserialize_names
names_lem s rest v = rw (sequence_lem name_format s.names rest v.few v.short) refl

abbrev pub names_format : Format ArrayNameSequence
names_format = record {
  IsValid = IsNames;
  serialize = serialize_names;
  deserialize = deserialize_names;
  get_serialized_size = size_names;
  length-serialize = length-serialize_names;
  deserialize-serialize = names_lem;
}
