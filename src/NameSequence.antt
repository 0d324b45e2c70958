-- ===== src/NameSequence.antt =====
-- The abstract class NameSequence (src/name_sequence/name_sequence.hpp): its operations, and its
-- documented contract against a plain sequence of names. A name is the list of its bytes.
pub mod Array
use succinct_filesystem.Base.{ℕ, ◌+◌, ◌≤◌, ◌<◌, ◌≡◌, List, []}
use succinct_filesystem.Base.Seq.{length, get_or, set, insert_at, remove_at}

abbrev pub Name : Type 0
Name = List ℕ

pub record NameSequence : Type 1 where
  pub Carrier : Type 0
  pub IsValid : Carrier → Type 0
  pub view : Carrier → List Name
  pub create_name_sequence : Carrier
  pub set_name : Carrier → ℕ → Name → Carrier
  pub access : Carrier → ℕ → Name
  pub size : Carrier → ℕ
  pub insert : Carrier → ℕ → Name → Carrier
  pub remove : Carrier → ℕ → Carrier
  pub create-IsValid : IsValid create_name_sequence
  pub view-create : view create_name_sequence ≡ []
  pub access_lem :
      (s : Carrier) (i : ℕ) → IsValid s → i < length (view s) → access s i ≡ get_or (view s) i []
  pub size_lem : (s : Carrier) → IsValid s → size s ≡ length (view s)
  pub set-IsValid :
      (s : Carrier) (i : ℕ) (n : Name) → IsValid s → i < length (view s) → IsValid (set_name s i n)
  pub view-set :
      (s : Carrier) (i : ℕ) (n : Name)
      → IsValid s
      → i < length (view s)
      → view (set_name s i n) ≡ set (view s) i n
  pub insert-IsValid :
      (s : Carrier) (i : ℕ) (n : Name) → IsValid s → i ≤ length (view s) → IsValid (insert s i n)
  pub view-insert :
      (s : Carrier) (i : ℕ) (n : Name)
      → IsValid s
      → i ≤ length (view s)
      → view (insert s i n) ≡ insert_at (view s) i n
  pub remove-IsValid :
      (s : Carrier) (i : ℕ) → IsValid s → i < length (view s) → IsValid (remove s i)
  pub view-remove :
      (s : Carrier) (i : ℕ)
      → IsValid s
      → i < length (view s)
      → view (remove s i) ≡ remove_at (view s) i
