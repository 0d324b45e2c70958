-- ===== src/Delta/Tests.antt =====
-- Runs of the delta stabilization, and its theorems at concrete inputs.
use succinct_filesystem.Base.{ℕ, zero, suc, ◌≡◌, refl, true, List, [], ◌∷◌, none, some, arith, map}
use succinct_filesystem.Base.Seq.{replicate, get_elem?}
use succinct_filesystem.Delta.{
  DeltaStabilization, fresh, append_operation, trim, push_operation, wrap_indices, adjust, replay,
  stable_inode_to_flouds_inode, flouds_inode_to_stable_inode,
}
use succinct_filesystem.Delta.Track.{Edit, insert, remove, to_operation, Located, replay_follows}
use succinct_filesystem.Delta.Log.{IsValid, log_all}
use succinct_filesystem.Delta.Stable.{
  logged, stable_inode_follows, stable_inode_expires, wrap_replays_log,
}

abbrev nodes : List ℕ
nodes = 10 ∷ 11 ∷ 12 ∷ []

abbrev edits : List (Edit ℕ)
edits = insert 1 13 ∷ remove 2 ∷ insert 3 14 ∷ []

abbrev full_log : DeltaStabilization
full_log = record {
  operations = record { is_insert = true; inode = 1 } ∷ [];
  first_operation_index = 65534;
  next_operation_index = 65535;
}

-- The node at position 2 moves to 3 and back to 2; the one at position 1 is removed.
edits_run :
    (replay (map to_operation edits) 2 ≡ some 2) × (replay (map to_operation edits) 1 ≡ none)
unfolding replay adjust
edits_run = (refl, refl)

fresh-IsValid : IsValid fresh
fresh-IsValid = omega arith

located : Located {A = ℕ} 12 nodes (some 2)
located = (refl, at)
  where
    at : (j : ℕ) → get_elem? nodes j ≡ some 12 → j ≡ 2
    at zero e = ground arith
    at (suc zero) e = ground arith
    at (suc (suc zero)) e = refl
    at (suc (suc (suc j))) e = cc

replay_follows_example :
    Located {A = ℕ} 12 (10 ∷ 13 ∷ 12 ∷ 14 ∷ []) (replay (map to_operation edits) 2)
replay_follows_example =
    replay_follows nodes edits 12 2 (omega arith) (omega arith) (omega arith) located

stable_inode_follows_example :
    Located {A = ℕ} 12
      (10 ∷ 13 ∷ 12 ∷ 14 ∷ [])
      (stable_inode_to_flouds_inode (log_all fresh edits) (flouds_inode_to_stable_inode fresh 2))
stable_inode_follows_example =
    stable_inode_follows fresh nodes edits 12 2 fresh-IsValid (omega arith) (omega arith)
      (omega arith) (omega arith) (omega arith) (omega arith) (omega arith) located

abbrev many_edits : List (Edit ℕ)
many_edits = replicate 300 (insert 1 13)

stable_inode_expires_example :
    stable_inode_to_flouds_inode (log_all fresh many_edits) (flouds_inode_to_stable_inode fresh 2)
    ≡ none
unfolding flouds_inode_to_stable_inode
stable_inode_expires_example =
    stable_inode_expires fresh many_edits 2 fresh-IsValid (omega arith) (omega arith) (omega arith)
      (omega arith)

wrap_replays_log_example :
    let d = append_operation full_log true 5 in
    (d.first_operation_index ≡ 0)
    × (d.next_operation_index ≡ 0)
    × (d.operations
        ≡ record { is_insert = true; inode = 1 } ∷ record { is_insert = true; inode = 5 } ∷ [])
    × (stable_inode_to_flouds_inode d (flouds_inode_to_stable_inode d 7)
        ≡ replay (logged full_log true 5) 7)
wrap_replays_log_example = wrap_replays_log full_log true 5 7 refl (omega arith) (omega arith)

-- The number issued for position 7 resolves to position 9 at once.
wrap_run :
    let d = append_operation full_log true 5 in
    stable_inode_to_flouds_inode d (flouds_inode_to_stable_inode d 7) ≡ some 9
unfolding append_operation trim push_operation wrap_indices stable_inode_to_flouds_inode
    flouds_inode_to_stable_inode replay adjust
wrap_run = refl
