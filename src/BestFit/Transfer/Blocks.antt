-- ===== src/BestFit/Transfer/Blocks.antt =====
-- Where a byte offset lies among blocks of one size.
use succinct_filesystem.Base.{ℕ, ◌+◌, ◌-◌, ◌/◌, ◌%◌, ◌<◌, ◌≡◌, arith}
use native.Mathlib.Nat.{
  div-add-mod, div-eq_of_eq-mul_left, le-div_iff_mul-le, div-mul-le_self, mod-lt,
}

-- The offset behind the last byte of a block begins the next block.
pub next_block : (cur n bs : ℕ) → 0 < bs → n ≡ bs - cur % bs → (cur + n) / bs ≡ cur / bs + 1
next_block cur n bs pos e =
    div-eq_of_eq-mul_left pos (omega (arith, div-add-mod cur bs, mod-lt cur pos))

-- An offset below `limit` lies in one of the blocks that `limit` bytes take.
pub block_inside : (cur limit bs : ℕ) → 0 < bs → cur < limit → cur / bs < (limit + bs - 1) / bs
block_inside cur limit bs pos lt = (le-div_iff_mul-le pos).1 (omega (arith, div-mul-le_self cur bs))
