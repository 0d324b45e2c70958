-- ===== src/BitVector/Array.antt =====
-- ArrayBitVectorStrategy (src/bitvector/array_bitvector.cpp): the bits are a std::vector<bool>, here
-- a list. A read out of range is undefined in C++ and `false` here; no theorem is about one.
pub mod Laws
mod Tests
use succinct_filesystem.Base.{
  ℕ, zero, suc, ◌+◌, ◌-◌, Bool, false, not, List, Option, none, some, ◌==◌, if◌then◌else◌,
}
use succinct_filesystem.Base.Seq.{length, get_or, set, insert_at, remove_at, replicate}

pub record ArrayBitVector : Type 0 where
  pub bits : List Bool

pub create_bitvector : ℕ → ArrayBitVector
create_bitvector n = record { bits = replicate n false }

unfoldable pub set_bit : ArrayBitVector → ℕ → Bool → ArrayBitVector
set_bit b position value = record b { bits = set b.bits position value }

unfoldable pub access : ArrayBitVector → ℕ → Bool
access b position = get_or b.bits position false

unfoldable pub size : ArrayBitVector → ℕ
size b = length b.bits

-- `for (i = 0; i <= position; i++)` with the rounds left first.
pub rank1_loop : ℕ → List Bool → ℕ → ℕ → ℕ
rank1_loop zero bits i count = count
rank1_loop (suc rounds) bits i count =
    rank1_loop rounds bits (i + 1) (if get_or bits i false then count + 1 else count)

pub rank1 : ArrayBitVector → ℕ → ℕ
unfolding rank1_loop
rank1 b position = rank1_loop (position + 1) b.bits 0 0

pub rank0 : ArrayBitVector → ℕ → ℕ
unfolding rank1
rank0 b position = position + 1 - rank1 b position

-- The loops of select1 (with `wanted` the bit) and of select0 (with its negation), with the rounds
-- left first; they end in the throw.
pub select_loop : (Bool → Bool) → ℕ → List Bool → ℕ → ℕ → ℕ → Option ℕ
select_loop wanted zero bits n i count = none
select_loop wanted (suc rounds) bits n i count =
    let count' = if wanted (get_or bits i false) then count + 1 else count in
    let rest = select_loop wanted rounds bits n (i + 1) count' in
    if count' == n then some i else rest

pub select1 : ArrayBitVector → ℕ → Option ℕ
unfolding select_loop
select1 b n = select_loop (λ bit. bit) (length b.bits) b.bits n 0 0

pub select0 : ArrayBitVector → ℕ → Option ℕ
unfolding select_loop
select0 b n = select_loop (λ bit. not bit) (length b.bits) b.bits n 0 0

pub insert : ArrayBitVector → ℕ → Bool → ArrayBitVector
insert b position value = record b { bits = insert_at b.bits position value }

pub remove : ArrayBitVector → ℕ → ArrayBitVector
remove b position = record b { bits = remove_at b.bits position }
