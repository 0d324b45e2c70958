-- ===== src/Allocation/Apart.antt =====
-- What a client relies on that keeps several allocations of up to `n` bytes
-- (src/fsm/allocation/allocation_manager.hpp): they do not disturb each other.
use succinct_filesystem.Base.{ℕ, ◌≤◌, ◌≡◌, ◌≢◌, List, ◌∷◌, ◌++◌}
use succinct_filesystem.Base.Seq.{length}
use succinct_filesystem.Serial.Format.{All}
use succinct_filesystem.Allocation.{AllocationManager}

-- Whoever reads at most `n` bytes at one of the handles reads what it did before.
abbrev pub Unaltered : (A : AllocationManager) → ℕ → A.Carrier → A.Carrier → List ℕ → Type 0
Unaltered A n before after handles =
    All (λ handle. (size : ℕ) → size ≤ n → A.read after handle size 0 ≡ A.read before handle size 0)
      handles

-- `Held a hs`: the handles `hs` stand for allocations of `n` bytes, apart from one another.
-- `HasRoom a`: there is room for one more.
pub record Separation (A : AllocationManager) (n : ℕ) : Type 1 where
  pub Held : A.Carrier → List ℕ → Type 0
  pub HasRoom : A.Carrier → Type 0
  pub distinct :
      (a : A.Carrier) (xs : List ℕ) (h : ℕ) (ys : List ℕ)
      → Held a (xs ++ h ∷ ys)
      → All (λ g. g ≢ h) xs × All (λ g. g ≢ h) ys
  pub write-Held :
      (a : A.Carrier) (xs : List ℕ) (h : ℕ) (ys bytes : List ℕ)
      → Held a (xs ++ h ∷ ys)
      → length bytes ≤ n
      → Held (A.write a h bytes 0) (xs ++ h ∷ ys)
  pub write-Unaltered :
      (a : A.Carrier) (xs : List ℕ) (h : ℕ) (ys bytes : List ℕ)
      → Held a (xs ++ h ∷ ys)
      → length bytes ≤ n
      → Unaltered A n a (A.write a h bytes 0) xs × Unaltered A n a (A.write a h bytes 0) ys
  pub write-HasRoom :
      (a : A.Carrier) (h : ℕ) (bytes : List ℕ) → HasRoom a → HasRoom (A.write a h bytes 0)
  pub allocate-Held :
      (a : A.Carrier) (xs ys : List ℕ)
      → Held a (xs ++ ys)
      → HasRoom a
      → Held (A.allocate a n).0 (xs ++ (A.allocate a n).1 ∷ ys)
  pub read-allocate :
      (a : A.Carrier) (h size : ℕ) → A.read (A.allocate a n).0 h size 0 ≡ A.read a h size 0
  pub free-Held :
      (a : A.Carrier) (xs : List ℕ) (h : ℕ) (ys : List ℕ) (size : ℕ)
      → Held a (xs ++ h ∷ ys)
      → size ≤ n
      → Held (A.free a h size) (xs ++ ys)
  pub read-free :
      (a : A.Carrier) (g h size freed : ℕ) → A.read (A.free a g freed) h size 0 ≡ A.read a h size 0
