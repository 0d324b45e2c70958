-- ===== src/BitVector/Array/Laws.antt =====
-- ArrayBitVectorStrategy (src/bitvector/array_bitvector.cpp) meets the contract of BitVector.
use succinct_filesystem.Base.{
  ℕ, zero, suc, ◌+◌, ◌-◌, ◌≤◌, ◌<◌, ◌≡◌, refl, ap, ◌∙◌, Bool, false, List, [], ◌∷◌, Option, none,
  some, arith, if◌then◌else◌,
}
use succinct_filesystem.Base.Seq.{
  length, get_or, set, insert_at, remove_at, drop, drop_all, replicate,
}
use succinct_filesystem.BitVector.{BitVector, ones, zeros}
use succinct_filesystem.BitVector.Count.{rank, select, later}
use succinct_filesystem.BitVector.Array.{
  ArrayBitVector, create_bitvector, set_bit, access, size, rank1_loop, rank1, rank0, select_loop,
  select1, select0, insert, remove,
}

drop_next :
    (bits : List Bool) (i : ℕ)
    → i < length bits
    → drop i bits ≡ get_or bits i false ∷ drop (suc i) bits
drop_next [] i h = absurd (omega arith)
drop_next (x ∷ bits) zero h = refl
drop_next (x ∷ bits) (suc i) h = drop_next bits i (omega arith)

rank1_loop_lem :
    (rounds : ℕ) (bits : List Bool) (i count : ℕ)
    → i + rounds ≤ length bits
    → rank1_loop rounds bits i count ≡ count + rank ones rounds (drop i bits)
unfolding rank1_loop
rank1_loop_lem zero bits i count h = omega arith
rank1_loop_lem (suc rounds) bits i count h = rw (drop_next bits i (omega arith)) (
    ground (
      arith,
      rank1_loop_lem rounds bits (suc i) (if get_or bits i false then count + 1 else count),
    ))

complement : (n : ℕ) (bits : List Bool) → n ≤ length bits → rank ones n bits + rank zeros n bits ≡ n
complement zero bits h = omega arith
complement (suc n) [] h = absurd (omega arith)
complement (suc n) (x ∷ bits) h = ground (arith, complement n bits)

abbrev offset_by : ℕ → Option ℕ → Option ℕ
offset_by i none = none
offset_by i (some k) = some (k + i)

offset-later : (j i : ℕ) (o : Option ℕ) → j ≡ suc i → offset_by i (later o) ≡ offset_by j o
offset-later j i none e = refl
offset-later j i (some k) e = ap (λ (t : ℕ). some t) (omega (arith, e))

offset-zero : (o : Option ℕ) → offset_by 0 o ≡ o
offset-zero none = refl
offset-zero (some k) = ap (λ (t : ℕ). some t) (omega arith)

select_loop_lem :
    (wanted : Bool → Bool) (rounds : ℕ) (bits : List Bool) (n i count : ℕ)
    → i + rounds ≡ length bits
    → count < n
    → select_loop wanted rounds bits n i count
      ≡ offset_by i (select wanted (n - count) (drop i bits))
unfolding select_loop
select_loop_lem wanted zero bits n i count h below = rw (drop_all i bits (omega arith))
select_loop_lem wanted (suc rounds) bits n i count h below =
    let this = wanted (get_or bits i false) in
    let count' = if this then count + 1 else count in
    rw (drop_next bits i (omega arith)) (
      ground (
        arith,
        offset-later (i + 1) i (select wanted (n - count') (drop (i + 1) bits)),
        select_loop_lem wanted rounds bits n (i + 1) count',
      ))

pub view-create : (n : ℕ) → (create_bitvector n).bits ≡ replicate n false
unfolding create_bitvector
view-create n = refl

pub size_lem : (b : ArrayBitVector) → size b ≡ length b.bits
unfolding size
size_lem b = refl

pub access_lem : (b : ArrayBitVector) (i : ℕ) → access b i ≡ get_or b.bits i false
unfolding access
access_lem b i = refl

-- The loop of rank1 counts the set bits up to and including a position in range.
pub rank1_lem :
    (b : ArrayBitVector) (i : ℕ) → i < length b.bits → rank1 b i ≡ rank ones (i + 1) b.bits
unfolding rank1
rank1_lem b i h = omega (arith, rank1_loop_lem (i + 1) b.bits 0 0 (omega arith))

pub rank0_lem :
    (b : ArrayBitVector) (i : ℕ) → i < length b.bits → rank0 b i ≡ rank zeros (i + 1) b.bits
unfolding rank0
rank0_lem b i h = omega (arith, rank1_lem b i h, complement (i + 1) b.bits (omega arith))

-- For a positive `n`, the loop of select1 finds the `n`-th set bit, and throws where there are fewer.
pub select1_lem : (b : ArrayBitVector) (n : ℕ) → 0 < n → select1 b n ≡ select ones n b.bits
unfolding select1
select1_lem b n pos =
    select_loop_lem ones (length b.bits) b.bits n 0 0 (omega arith) pos
    ∙ offset-zero (select ones (n - 0) b.bits)
    ∙ ap (λ (k : ℕ). select ones k b.bits) (omega arith)

pub select0_lem : (b : ArrayBitVector) (n : ℕ) → 0 < n → select0 b n ≡ select zeros n b.bits
unfolding select0
select0_lem b n pos =
    select_loop_lem zeros (length b.bits) b.bits n 0 0 (omega arith) pos
    ∙ offset-zero (select zeros (n - 0) b.bits)
    ∙ ap (λ (k : ℕ). select zeros k b.bits) (omega arith)

pub view-set : (b : ArrayBitVector) (i : ℕ) (v : Bool) → (set_bit b i v).bits ≡ set b.bits i v
unfolding set_bit
view-set b i v = refl

pub view-insert :
    (b : ArrayBitVector) (i : ℕ) (v : Bool) → (insert b i v).bits ≡ insert_at b.bits i v
unfolding insert
view-insert b i v = refl

pub view-remove : (b : ArrayBitVector) (i : ℕ) → (remove b i).bits ≡ remove_at b.bits i
unfolding remove
view-remove b i = refl

-- The array implementation meets the documented contract of every operation.
abbrev pub array_bitvector : BitVector
array_bitvector = record {
  Carrier = ArrayBitVector;
  IsValid = λ b. Unit;
  view = λ b. b.bits;
  create_bitvector = create_bitvector;
  set_bit = set_bit;
  access = access;
  size = size;
  rank0 = rank0;
  rank1 = rank1;
  select0 = select0;
  select1 = select1;
  insert = insert;
  remove = remove;
  create-IsValid = λ n. tt;
  view-create = view-create;
  size_lem = λ b v. size_lem b;
  access_lem = λ b i v h. access_lem b i;
  rank0_lem = λ b i v h. rank0_lem b i h;
  rank1_lem = λ b i v h. rank1_lem b i h;
  select0_lem = λ b n v pos h. select0_lem b n pos;
  select1_lem = λ b n v pos. select1_lem b n pos;
  set-IsValid = λ b i v w h. tt;
  view-set = λ b i v w h. view-set b i v;
  insert-IsValid = λ b i v w h. tt;
  view-insert = λ b i v w h. view-insert b i v;
  remove-IsValid = λ b i w h. tt;
  view-remove = λ b i w h. view-remove b i;
}
