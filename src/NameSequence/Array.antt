-- ===== src/NameSequence/Array.antt =====
-- ArrayNameSequenceStrategy (src/name_sequence/array_name_sequence.cpp): the names are a
-- std::vector<std::string>, here a list. A read out of range is undefined in C++ and the empty name
-- here; no theorem is about one.
use succinct_filesystem.Base.{
  ℕ, ◌≡◌, refl, List, [], Option, none, some, leb, if◌then◌else◌, ◌≤◌, ◌<◌, arith,
}
use succinct_filesystem.Base.Seq.{length, get_or, set, insert_at, remove_at}
use succinct_filesystem.NameSequence.{Name, NameSequence}

pub record ArrayNameSequence : Type 0 where
  pub names : List Name

pub create_name_sequence : ArrayNameSequence
create_name_sequence = record { names = [] }

pub set_name : ArrayNameSequence → ℕ → Name → ArrayNameSequence
set_name s position name = record s { names = set s.names position name }

pub access : ArrayNameSequence → ℕ → Name
access s position = get_or s.names position []

pub size : ArrayNameSequence → ℕ
size s = length s.names

pub insert : ArrayNameSequence → ℕ → Name → ArrayNameSequence
insert s position name = record s { names = insert_at s.names position name }

-- `none` is the thrown std::out_of_range.
pub remove? : ArrayNameSequence → ℕ → Option ArrayNameSequence
remove? s position =
    if leb (length s.names) position
    then none
    else some (record s { names = remove_at s.names position })

-- The same where nothing is thrown; a throw leaves the object as it was.
pub remove : ArrayNameSequence → ℕ → ArrayNameSequence
remove s position = elim (remove? s position) [ some s' ↦ s' | none ↦ s ]

pub view-remove :
    (s : ArrayNameSequence) (i : ℕ) → i < length s.names → (remove s i).names ≡ remove_at s.names i
unfolding remove remove?
view-remove s i h = ground arith

-- A removal out of range throws, and any other removes the name at the position.
pub remove?_lem :
    (s : ArrayNameSequence) (i : ℕ)
    → (length s.names ≤ i → remove? s i ≡ none)
      × (i < length s.names → remove? s i ≡ some (record { names = remove_at s.names i }))
unfolding remove?
remove?_lem s i = (λ h. ground arith, λ h. ground arith)

pub view-create : create_name_sequence.names ≡ []
unfolding create_name_sequence
view-create = refl

pub access_lem : (s : ArrayNameSequence) (i : ℕ) → access s i ≡ get_or s.names i []
unfolding access
access_lem s i = refl

pub size_lem : (s : ArrayNameSequence) → size s ≡ length s.names
unfolding size
size_lem s = refl

pub view-set : (s : ArrayNameSequence) (i : ℕ) (n : Name) → (set_name s i n).names ≡ set s.names i n
unfolding set_name
view-set s i n = refl

pub view-insert :
    (s : ArrayNameSequence) (i : ℕ) (n : Name) → (insert s i n).names ≡ insert_at s.names i n
unfolding insert
view-insert s i n = refl

-- The array implementation meets the contract of NameSequence.
abbrev pub array_name_sequence : NameSequence
array_name_sequence = record {
  Carrier = ArrayNameSequence;
  IsValid = λ s. Unit;
  view = λ s. s.names;
  create_name_sequence = create_name_sequence;
  set_name = set_name;
  access = access;
  size = size;
  insert = insert;
  remove = remove;
  create-IsValid = tt;
  view-create = view-create;
  access_lem = λ s i v h. access_lem s i;
  size_lem = λ s v. size_lem s;
  set-IsValid = λ s i n v h. tt;
  view-set = λ s i n v h. view-set s i n;
  insert-IsValid = λ s i n v h. tt;
  view-insert = λ s i n v h. view-insert s i n;
  remove-IsValid = λ s i v h. tt;
  view-remove = λ s i v h. view-remove s i h;
}
