-- ===== src/WaveletTree.antt =====
-- TwoBitWaveletTree (src/wavelet_tree/two_bit_wavelet_tree.hpp): a sequence over the symbols 0 to 3
-- in three bit vectors, over any implementation of the BitVector interface.
pub mod Split
pub mod Refine
pub mod Select
pub mod Update
pub mod Create
mod Tests
use succinct_filesystem.Base.{
  ℕ, zero, suc, ◌+◌, ◌-◌, ◌≤◌, ◌<◌, Bool, true, false, not, List, [], ◌∷◌, Option, none, some, ltb,
  leb, ◌==◌, if◌then◌else◌, ◌>>=◌,
}
use succinct_filesystem.Base.Seq.{length}
use succinct_filesystem.BitVector.{BitVector}

pub record TwoBitWaveletTree (B : BitVector) : Type 0 where
  pub root_bv : B.Carrier
  pub left_bv : B.Carrier
  pub right_bv : B.Carrier

module _ (B : BitVector) where
  pub access : TwoBitWaveletTree B → ℕ → ℕ
  access t position =
      if B.access t.root_bv position
      then (if B.access t.right_bv (B.rank1 t.root_bv position - 1) then 3 else 2)
      else (if B.access t.left_bv (B.rank0 t.root_bv position - 1) then 1 else 0)

  pub size : TwoBitWaveletTree B → ℕ
  size t = B.size t.root_bv

  -- `none` is the thrown std::out_of_range.
  pub rank : TwoBitWaveletTree B → ℕ → ℕ → Option ℕ
  rank t symbol position =
      let zeros = B.rank0 t.root_bv position in
      let ones = B.rank1 t.root_bv position in
      if leb (B.size t.root_bv) position
      then none
      else if ltb symbol 2
      then (if zeros == 0
          then some 0
          else if symbol == 0
          then some (B.rank0 t.left_bv (zeros - 1))
          else some (B.rank1 t.left_bv (zeros - 1)))
      else (if ones == 0
          then some 0
          else if symbol == 2
          then some (B.rank0 t.right_bv (ones - 1))
          else some (B.rank1 t.right_bv (ones - 1)))

  pub select : TwoBitWaveletTree B → ℕ → ℕ → Option ℕ
  select t symbol n =
      if symbol == 0
      then (B.select0 t.left_bv n >>= λ k. B.select0 t.root_bv (k + 1))
      else if symbol == 1
      then (B.select1 t.left_bv n >>= λ k. B.select0 t.root_bv (k + 1))
      else if symbol == 2
      then (B.select0 t.right_bv n >>= λ k. B.select1 t.root_bv (k + 1))
      else (B.select1 t.right_bv n >>= λ k. B.select1 t.root_bv (k + 1))

  pub insert : TwoBitWaveletTree B → ℕ → ℕ → TwoBitWaveletTree B
  insert t position symbol =
      let child_pos =
        if ltb 0 position
        then (if ltb symbol 2
            then B.rank0 t.root_bv (position - 1)
            else B.rank1 t.root_bv (position - 1))
        else 0 in
      let root = B.insert t.root_bv position (leb 2 symbol) in
      if ltb symbol 2
      then record t { root_bv = root; left_bv = B.insert t.left_bv child_pos (symbol == 1) }
      else record t { root_bv = root; right_bv = B.insert t.right_bv child_pos (symbol == 3) }

  pub remove : TwoBitWaveletTree B → ℕ → TwoBitWaveletTree B
  remove t position =
      let root_bit = B.access t.root_bv position in
      let child_pos =
        if root_bit then B.rank1 t.root_bv position - 1 else B.rank0 t.root_bv position - 1 in
      let root = B.remove t.root_bv position in
      if not root_bit
      then record t { root_bv = root; left_bv = B.remove t.left_bv child_pos }
      else record t { root_bv = root; right_bv = B.remove t.right_bv child_pos }

  pub set_symbol : TwoBitWaveletTree B → ℕ → ℕ → TwoBitWaveletTree B
  set_symbol t position symbol = insert (remove t position) position symbol

  -- The first loop of the factory: the root bits, and how many symbols go right.
  pub fill_root : List ℕ → ℕ → B.Carrier → ℕ → B.Carrier × ℕ
  fill_root [] i root_bv right = (root_bv, right)
  fill_root (s ∷ symbols) i root_bv right =
      fill_root symbols (i + 1) (if leb 2 s then B.set_bit root_bv i true else root_bv)
        (if leb 2 s then right + 1 else right)

  -- The second loop: the bits of the two children.
  pub fill_children : List ℕ → B.Carrier → B.Carrier → ℕ → ℕ → B.Carrier × B.Carrier
  fill_children [] left_bv right_bv left_pos right_pos = (left_bv, right_bv)
  fill_children (s ∷ symbols) left_bv right_bv left_pos right_pos =
      fill_children symbols (if s == 1 then B.set_bit left_bv left_pos true else left_bv)
        (if s == 3 then B.set_bit right_bv right_pos true else right_bv)
        (if ltb s 2 then left_pos + 1 else left_pos) (if ltb s 2 then right_pos else right_pos + 1)

  pub create_two_bit_wavelet_tree : List ℕ → TwoBitWaveletTree B
  unfolding fill_root fill_children
  create_two_bit_wavelet_tree symbols =
      let n = length symbols in
      let (root_bv, right) = fill_root symbols 0 (B.create_bitvector n) 0 in
      let (left_bv, right_bv) =
        fill_children symbols (B.create_bitvector (n - right)) (B.create_bitvector right) 0 0 in
      record { root_bv = root_bv; left_bv = left_bv; right_bv = right_bv }
