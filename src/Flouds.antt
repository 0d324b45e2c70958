-- ===== src/Flouds.antt =====
-- FLOUDS (src/flouds/flouds.hpp, src/flouds/flouds.cpp): the directory tree as three sequences in
-- one order of nodes, over any bit vectors and name sequence. `none` is a thrown std::out_of_range.
-- A subtraction that the source makes on size_t is of a smaller from a larger number on every state
-- that the theorems are about.
pub mod Shape
pub mod Grow
pub mod Refine
pub mod Insert
pub mod Family
pub mod Adopt
pub mod Sample
mod Tests
use succinct_filesystem.Base.{
  ℕ, ◌+◌, ◌-◌, ◌≤◌, ◌<◌, Bool, true, false, ◌||◌, List, [], ◌∷◌, Option, none, some, leb, ◌==◌,
  if◌then◌else◌, ◌>>=◌,
}
use succinct_filesystem.BitVector.{BitVector}
use succinct_filesystem.NameSequence.{NameSequence, Name}
use succinct_filesystem.WaveletTree
use succinct_filesystem.WaveletTree.{TwoBitWaveletTree}

pub record Flouds (B : BitVector) (N : NameSequence) : Type 0 where
  pub structure : B.Carrier
  pub types : TwoBitWaveletTree B
  pub names : N.Carrier

-- "root"
abbrev pub root_name : Name
root_name = b'r' ∷ b'o' ∷ b'o' ∷ b't' ∷ []

module _ (B : BitVector) (N : NameSequence) where
  pub create_flouds : Flouds B N
  create_flouds = record {
    structure = B.set_bit (B.create_bitvector 1) 0 true;
    types = WaveletTree.create_two_bit_wavelet_tree B (2 ∷ []);
    names = N.insert N.create_name_sequence 0 root_name;
  }

  pub is_folder : Flouds B N → ℕ → Bool
  is_folder f node_id = let type = WaveletTree.access B f.types node_id in type == 1 || type == 2

  pub is_file : Flouds B N → ℕ → Bool
  is_file f node_id = WaveletTree.access B f.types node_id == 0

  pub is_empty_folder : Flouds B N → ℕ → Bool
  is_empty_folder f node_id = WaveletTree.access B f.types node_id == 2

  pub get_name : Flouds B N → ℕ → Name
  get_name f node_id = N.access f.names node_id

  pub parent : Flouds B N → ℕ → Option ℕ
  parent f node_id =
      let parent_folder_index = B.rank1 f.structure node_id in
      WaveletTree.select B f.types 1 (parent_folder_index - 1)

  -- The children of a folder that is not empty: up to the next folder's, or to the end.
  pub count_block : Flouds B N → ℕ → Option ℕ
  count_block f folder_index = B.select1 f.structure folder_index >>= λ start.
      let total_folders = B.rank1 f.structure (B.size f.structure - 1) in
      if leb (folder_index + 1) total_folders
      then (B.select1 f.structure (folder_index + 1) >>= λ next_folder_pos.
          some (next_folder_pos - start))
      else some (B.size f.structure - start)

  pub children_count : Flouds B N → ℕ → Option ℕ
  children_count f node_id =
      if is_empty_folder f node_id
      then some 0
      else (WaveletTree.rank B f.types 1 node_id >>= λ r. count_block f (r + 1))

  pub child : Flouds B N → ℕ → ℕ → Option ℕ
  child f node_id child_index = WaveletTree.rank B f.types 1 node_id >>= λ r.
      B.select1 f.structure (r + 1) >>= λ start. some (start + child_index)

  -- The `try` around select1: a throw means the end of the structure.
  pub insert_position : B.Carrier → ℕ → ℕ → ℕ
  insert_position structure parent_folder_index children_count =
      elim (B.select1 structure parent_folder_index) [
        | some start ↦ start + children_count
        | none ↦ B.size structure + children_count
      ]

  pub insert : Flouds B N → ℕ → Name → Bool → Option (Flouds B N × ℕ)
  insert f parent_id name is_folder =
      let was_empty = is_empty_folder f parent_id in
      let types = if was_empty then WaveletTree.set_symbol B f.types parent_id 1 else f.types in
      (if was_empty then some 0 else children_count f parent_id) >>= λ count.
      WaveletTree.rank B types 1 parent_id >>= λ r.
      let insert_pos = insert_position f.structure (r + 1) count in
      some (
        record {
          structure = B.insert f.structure insert_pos was_empty;
          types = WaveletTree.insert B types insert_pos (if is_folder then 2 else 0);
          names = N.insert f.names insert_pos name;
        },
        insert_pos,
      )

  pub remove : Flouds B N → ℕ → Option (Flouds B N)
  remove f node_id = parent f node_id >>= λ parent_index.
      children_count f parent_index >>= λ parent_children_before.
      let was_first_child = B.access f.structure node_id in
      let structure = B.remove f.structure node_id in
      let types = WaveletTree.remove B f.types node_id in
      let names = N.remove f.names node_id in
      some (
        if parent_children_before == 1
        then record {
          structure = structure;
          types = WaveletTree.set_symbol B types parent_index 2;
          names = names;
        }
        else if was_first_child
        then record { structure = B.set_bit structure node_id true; types = types; names = names }
        else record { structure = structure; types = types; names = names })
