-- ===== src/Delta.antt =====
-- Delta stabilization (src/fsm/delta/delta_stabilization.hpp), built with DELTA_STABILIZATION.
pub mod Track
pub mod Log
pub mod Stable
mod Tests
use Prim.Native.Nat.{bit_and, bit_or}
use succinct_filesystem.Base.{
  ℕ, ◌+◌, ◌-◌, ◌*◌, ◌/◌, ◌%◌, ◌^◌, Bool, true, false, not, ◌&&◌, ◌||◌, List, [], ◌∷◌, ◌++◌, Option,
  none, some, ltb, leb, ◌==◌, if◌then◌else◌, ◌>>=◌,
}
use succinct_filesystem.Base.Seq.{length, drop}

-- One entry of the log; `inode` is a position in FLOUDS.
pub record DeltaOperation : Type 0 where
  pub is_insert : Bool
  pub inode : ℕ

pub record DeltaStabilization : Type 0 where
  pub operations : List DeltaOperation
  pub first_operation_index : ℕ
  pub next_operation_index : ℕ

abbrev pub fresh : DeltaStabilization
fresh = record { operations = []; first_operation_index = 0; next_operation_index = 0 }

-- The log keeps at most 256 entries.
pub trim : DeltaStabilization → DeltaStabilization
trim d =
    if leb 256 (length d.operations)
    then record d {
      operations = drop 1 d.operations;
      first_operation_index = (d.first_operation_index + 1) % 2 ^ 64;
    }
    else d

pub push_operation : DeltaStabilization → DeltaOperation → DeltaStabilization
push_operation d op = record d {
  operations = d.operations ++ op ∷ [];
  next_operation_index = (d.next_operation_index + 1) % 2 ^ 64;
}

pub wrap_indices : DeltaStabilization → DeltaStabilization
wrap_indices d =
    if ltb (2 ^ 16 - 1) d.next_operation_index
    then record d { first_operation_index = 0; next_operation_index = 0 }
    else d

pub append_operation : DeltaStabilization → Bool → ℕ → DeltaStabilization
append_operation d is_insert inode =
    wrap_indices (push_operation (trim d) (record { is_insert = is_insert; inode = inode }))

pub record_insert : DeltaStabilization → ℕ → DeltaStabilization
record_insert d inode = append_operation d true inode

pub record_remove : DeltaStabilization → ℕ → DeltaStabilization
record_remove d inode = append_operation d false inode

-- One round of the loop: where the node at `p` is after `op`, `none` if `op` removed it.
pub adjust : DeltaOperation → ℕ → Option ℕ
adjust op p =
    if op.is_insert && leb op.inode p
    then some ((p + 1) % 2 ^ 64)
    else if not op.is_insert
    then (if op.inode == p then none else if ltb op.inode p then some (p - 1) else some p)
    else some p

-- The loop over the operations from `operation_offset` on.
unfoldable pub replay : List DeltaOperation → ℕ → Option ℕ
replay [] p = some p
replay (op ∷ ops) p = adjust op p >>= replay ops

unfoldable pub stable_inode_to_flouds_inode : DeltaStabilization → ℕ → Option ℕ
stable_inode_to_flouds_inode d stable_inode =
    let log_position = stable_inode / 2 ^ 48 in
    let inode_number = bit_and stable_inode (2 ^ 48 - 1) in
    let outside =
      ltb log_position d.first_operation_index || ltb d.next_operation_index log_position in
    let flouds_position = (inode_number + 2 ^ 64 - 1) % 2 ^ 64 in
    if stable_inode == 1
    then some 0
    else if outside
    then none
    else replay (drop (log_position - d.first_operation_index) d.operations) flouds_position

pub flouds_inode_to_stable_inode : DeltaStabilization → ℕ → ℕ
flouds_inode_to_stable_inode d flouds_inode =
    bit_or (d.next_operation_index * 2 ^ 48 % 2 ^ 64) ((flouds_inode + 1) % 2 ^ 64)
