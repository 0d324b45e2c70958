-- ===== src/BitVector.antt =====
-- The abstract class BitVector (src/bitvector/bitvector.hpp): its operations, and its documented
-- contract against a plain sequence of bits. `none` of a select is the thrown std::out_of_range.
-- What an operation does outside its documented preconditions is left open here, but for select1 with
-- more than the set bits there are: bitvector.hpp leaves it open too, the tree catches what is thrown
-- there (src/flouds/flouds.cpp:96), and the array and the word bit vector do throw.
pub mod Count
pub mod Array
pub mod Word
use succinct_filesystem.Base.{ℕ, ◌+◌, ◌≤◌, ◌<◌, ◌≡◌, Bool, false, not, List, Option}
use succinct_filesystem.Base.Seq.{length, get_or, set, insert_at, remove_at, replicate}
use Count.{rank, select}

abbrev pub ones : Bool → Bool
ones b = b

abbrev pub zeros : Bool → Bool
zeros b = not b

-- `view` is the bit sequence that the object stands for; `IsValid` is the class invariant.
pub record BitVector : Type 1 where
  pub Carrier : Type 0
  pub IsValid : Carrier → Type 0
  pub view : Carrier → List Bool
  pub create_bitvector : ℕ → Carrier
  pub set_bit : Carrier → ℕ → Bool → Carrier
  pub access : Carrier → ℕ → Bool
  pub size : Carrier → ℕ
  pub rank0 : Carrier → ℕ → ℕ
  pub rank1 : Carrier → ℕ → ℕ
  pub select0 : Carrier → ℕ → Option ℕ
  pub select1 : Carrier → ℕ → Option ℕ
  pub insert : Carrier → ℕ → Bool → Carrier
  pub remove : Carrier → ℕ → Carrier
  pub create-IsValid : (n : ℕ) → IsValid (create_bitvector n)
  pub view-create : (n : ℕ) → view (create_bitvector n) ≡ replicate n false
  pub size_lem : (b : Carrier) → IsValid b → size b ≡ length (view b)
  pub access_lem :
      (b : Carrier) (i : ℕ) → IsValid b → i < length (view b) → access b i ≡ get_or (view b) i false
  pub rank0_lem :
      (b : Carrier) (i : ℕ)
      → IsValid b
      → i < length (view b)
      → rank0 b i ≡ rank zeros (i + 1) (view b)
  pub rank1_lem :
      (b : Carrier) (i : ℕ)
      → IsValid b
      → i < length (view b)
      → rank1 b i ≡ rank ones (i + 1) (view b)
  -- For zeros only a select that succeeds is in the contract.
  pub select0_lem :
      (b : Carrier) (n : ℕ)
      → IsValid b
      → 0 < n
      → n ≤ rank zeros (length (view b)) (view b)
      → select0 b n ≡ select zeros n (view b)
  pub select1_lem : (b : Carrier) (n : ℕ) → IsValid b → 0 < n → select1 b n ≡ select ones n (view b)
  pub set-IsValid :
      (b : Carrier) (i : ℕ) (v : Bool) → IsValid b → i < length (view b) → IsValid (set_bit b i v)
  pub view-set :
      (b : Carrier) (i : ℕ) (v : Bool)
      → IsValid b
      → i < length (view b)
      → view (set_bit b i v) ≡ set (view b) i v
  pub insert-IsValid :
      (b : Carrier) (i : ℕ) (v : Bool) → IsValid b → i ≤ length (view b) → IsValid (insert b i v)
  pub view-insert :
      (b : Carrier) (i : ℕ) (v : Bool)
      → IsValid b
      → i ≤ length (view b)
      → view (insert b i v) ≡ insert_at (view b) i v
  pub remove-IsValid :
      (b : Carrier) (i : ℕ) → IsValid b → i < length (view b) → IsValid (remove b i)
  pub view-remove :
      (b : Carrier) (i : ℕ)
      → IsValid b
      → i < length (view b)
      → view (remove b i) ≡ remove_at (view b) i
