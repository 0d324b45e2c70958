-- ===== src/Flouds/Shape.antt =====
-- The shape of a FLOUDS sequence (src/flouds/flouds.hpp): which bits and types describe a tree, as
-- conditions on plain sequences.
use succinct_filesystem.Base.{
  ℕ, zero, suc, ◌+◌, ◌-◌, ◌≤◌, ◌<◌, ◌≡◌, Bool, true, List, none, some, arith, Option-cases, inl,
  inr,
}
use native.Mathlib.Decide.{dec_lt}
use succinct_filesystem.Base.Seq.{length, get_elem?, get_elem?-lt}
use succinct_filesystem.BitVector.{ones}
use succinct_filesystem.BitVector.Count.{
  rank, select, rank-le, rank_mono, hit, rank-step, rank-select, select-none, select-some,
}
use succinct_filesystem.WaveletTree.Split.{is_symbol}

-- A folder with children.
abbrev pub full : ℕ → Bool
full s = is_symbol 1 s

-- Which block of children the node `i` stands in, from 1, the root's own block.
abbrev pub block_of : List Bool → ℕ → ℕ
block_of bits i = rank ones (suc i) bits

-- Which of the folders with children the node `i` is, from 1.
abbrev pub folder_index : List ℕ → ℕ → ℕ
folder_index types i = rank full (suc i) types

-- A block for the root and one for each folder with children, in the folders' order, each after
-- its folder.
pub record IsTree (bits : List Bool) (types : List ℕ) : Type 0 where
  pub same_length : length types ≡ length bits
  pub nonempty : 0 < length bits
  pub root_bit : get_elem? bits 0 ≡ some true
  pub blocks : rank ones (length bits) bits ≡ rank full (length bits) types + 1
  pub below_root : (i : ℕ) → 0 < i → i < length bits → 2 ≤ block_of bits i
  pub parents_first : (i : ℕ) → 0 < i → i < length bits → block_of bits i ≤ rank full i types + 1

-- Where a block ends: at the next set bit, or at the end.
pub block_end : List Bool → ℕ → ℕ
block_end bits k = elim (select ones (suc k) bits) [ some e ↦ e | none ↦ length bits ]

pub block_end_lem :
    (bits : List Bool) (k : ℕ)
    → k ≤ rank ones (length bits) bits
    → (block_end bits k ≤ length bits)
      × (rank ones (block_end bits k) bits ≡ k)
      × (block_end bits k < length bits → rank ones (suc (block_end bits k)) bits ≡ suc k)
unfolding block_end
block_end_lem bits k h = elim (dec_lt k (rank ones (length bits) bits)) [
  | yes more ↦
      let (e, found) = select-some ones (suc k) bits (omega arith) more in
      let at = rank-select ones (suc k) bits e (omega arith) found in
      rw (found, block_end) (omega (arith, at.0), omega (arith, at.1), λ _. at.2)
  | no last ↦
      rw (select-none ones (suc k) bits (omega arith) (omega arith), block_end)
        (omega arith, omega arith, λ past. absurd (omega (arith, past)))
]

pub block_end-found :
    (bits : List Bool) (k e : ℕ) → select ones (suc k) bits ≡ some e → block_end bits k ≡ e
unfolding block_end
block_end-found bits k e found = rw (found, block_end)

pub block_end-last :
    (bits : List Bool) (k : ℕ) → select ones (suc k) bits ≡ none → block_end bits k ≡ length bits
unfolding block_end
block_end-last bits k found = rw (found, block_end)

pub block_end-le : (bits : List Bool) (k : ℕ) → block_end bits k ≤ length bits
block_end-le bits k = elim (Option-cases (select ones (suc k) bits)) [
  | inl last ↦ omega (arith, block_end-last bits k last)
  | inr (e, found) ↦ omega (
    arith,
    block_end-found bits k e found,
    (rank-select ones (suc k) bits e (omega arith) found).0,
  )
]

folder_kind :
    (types : List ℕ) (q : ℕ)
    → rank full (suc q) types ≡ rank full q types + 1
    → get_elem? types q ≡ some 1
folder_kind types q e = let (x, found, yes_full) = hit full types q e in ground arith

module _ {bits : List Bool} {types : List ℕ} (t : IsTree bits types) where
  -- A node other than the root has a parent: a folder with children that stands before it.
  pub parent_exists :
      (i : ℕ)
      → 0 < i
      → i < length bits
      → (q : ℕ) × (select full (block_of bits i - 1) types ≡ some q)
        × (q < i)
        × (get_elem? types q ≡ some 1)
        × (folder_index types q + 1 ≡ block_of bits i)
  parent_exists i pos lt =
      let k = block_of bits i - 1 in
      let early : k ≤ rank full i types = omega (arith, t.parents_first i pos lt) in
      let known : k ≤ rank full (length types) types = omega (
        arith,
        t.same_length,
        early,
        rank_mono full i (length types) types (omega (arith, t.same_length)),
      ) in
      let two : 2 ≤ block_of bits i = t.below_root i pos lt in
      let (q, found) = select-some full k types (omega (arith, two)) known in
      let at = rank-select full k types q (omega (arith, two)) found in
      (
        q,
        found,
        elim (dec_lt q i) [
          | yes before ↦ before
          | no after ↦ absurd (omega (arith, at.1, early, rank_mono full i q types (omega arith)))
        ],
        folder_kind types q (omega (arith, at.1, at.2)),
        omega (arith, at.2, two),
      )

  pub block_exists :
      (p : ℕ)
      → get_elem? types p ≡ some 1
      → suc (folder_index types p) ≤ rank ones (length bits) bits
  block_exists p e = omega (
    arith,
    t.blocks,
    t.same_length,
    rank_mono full (suc p) (length bits) types
        (omega (arith, t.same_length, get_elem?-lt types p e)),
  )

  -- Every folder with children has a block, and it starts after the folder.
  pub block_start :
      (p : ℕ)
      → get_elem? types p ≡ some 1
      → (s : ℕ) × (select ones (suc (folder_index types p)) bits ≡ some s)
        × (p < s)
        × (s < length bits)
        × (rank ones s bits ≡ folder_index types p)
        × (s < block_end bits (suc (folder_index types p)))
  block_start p e =
      let k = folder_index types p in
      let inside = get_elem?-lt types p e in
      let here : k ≡ rank full p types + 1 = rank-step full p types 1 e in
      let enough = block_exists p e in
      let (s, found) = select-some ones (suc k) bits (omega arith) enough in
      let at = rank-select ones (suc k) bits s (omega arith) found in
      let first : 0 < s = start_pos s (suc k) at.2 (omega (arith, here)) in
      (
        s,
        found,
        elim (dec_lt p s) [
          | yes after ↦ after
          | no before ↦ absurd (
              omega (
                arith,
                t.parents_first s first at.0,
                at.2,
                here,
                rank_mono full s p types (omega arith),
              ))
        ],
        at.0,
        omega (arith, at.1),
        elim (dec_lt s (block_end bits (suc k))) [
          | yes before ↦ before
          | no after ↦ absurd (
              omega (
                arith,
                at.1,
                (block_end_lem bits (suc k) enough).1,
                rank_mono ones (block_end bits (suc k)) s bits (omega arith),
              ))
        ],
      )
    where
      start_pos : (s k : ℕ) → rank ones (suc s) bits ≡ k → 1 < k → 0 < s
      start_pos zero k e h = absurd (omega (arith, rank-le ones 1 bits))
      start_pos (suc s) k e h = omega arith
