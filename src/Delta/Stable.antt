-- ===== src/Delta/Stable.antt =====
-- Translating an inode number that FUSE holds back to a FLOUDS position
-- (src/fsm/delta/delta_stabilization.hpp).
use succinct_filesystem.Base.{
  ℕ, ◌+◌, ◌-◌, ◌*◌, ◌^◌, ◌≤◌, ◌<◌, ◌≡◌, ◌≢◌, refl, List, [], ◌∷◌, none, some, arith, sym, ap, ◌∙◌,
  map, Bool, ◌++◌, leb, if◌then◌else◌,
}
use native.Mathlib.Decide.{ℕ_discrete}
use succinct_filesystem.Base.Bits.{bit_and_mask, bit_or_shifted}
use succinct_filesystem.Base.Seq.{length, drop}
use succinct_filesystem.Delta.{
  DeltaStabilization, DeltaOperation, append_operation, trim, push_operation, wrap_indices, adjust,
  replay, stable_inode_to_flouds_inode, flouds_inode_to_stable_inode,
}
use succinct_filesystem.Delta.Track.{
  Edit, insert, remove, to_operation, apply_all, AllFit, AllSpare, Located, replay_follows,
}
use succinct_filesystem.Delta.Log.{IsValid, now-Since, log_all, log_all-Since, log_all-IsValid}

encode :
    (d : DeltaStabilization) (p : ℕ)
    → d.next_operation_index < 2 ^ 16
    → p + 1 < 2 ^ 48
    → flouds_inode_to_stable_inode d p ≡ d.next_operation_index * 2 ^ 48 + (p + 1)
unfolding flouds_inode_to_stable_inode
encode d p bound small = ground (arith, bit_or_shifted 48 d.next_operation_index (p + 1) small)

-- Decoding splits what encoding joined.
decode :
    (d : DeltaStabilization) (n p : ℕ)
    → n < 2 ^ 16
    → p + 1 < 2 ^ 48
    → n * 2 ^ 48 + (p + 1) ≢ 1
    → d.first_operation_index ≤ n
    → n ≤ d.next_operation_index
    → stable_inode_to_flouds_inode d (n * 2 ^ 48 + (p + 1))
      ≡ replay (drop (n - d.first_operation_index) d.operations) p
unfolding stable_inode_to_flouds_inode
decode d n p bound small other kept reached = ground (arith, bit_and_mask 48 (n * 2 ^ 48 + (p + 1)))

decode_outside :
    (d : DeltaStabilization) (n p : ℕ)
    → p + 1 < 2 ^ 48
    → n * 2 ^ 48 + (p + 1) ≢ 1
    → n < d.first_operation_index
    → stable_inode_to_flouds_inode d (n * 2 ^ 48 + (p + 1)) ≡ none
unfolding stable_inode_to_flouds_inode
decode_outside d n p small other old = ground arith

-- The root's inode number decodes to the root whatever the log holds.
decode_root : (d : DeltaStabilization) → stable_inode_to_flouds_inode d 1 ≡ some 0
unfolding stable_inode_to_flouds_inode
decode_root d = refl

module _ {ℓ} {A : Type ℓ} where
  -- No edit touches the root: nothing is inserted at position 0 and the root is not removed.
  abbrev pub KeepsRoot : List (Edit A) → Type 0
  KeepsRoot [] = Unit
  KeepsRoot (e ∷ es) = (0 < (to_operation e).inode) × KeepsRoot es

  replay_root : (es : List (Edit A)) → KeepsRoot es → replay (map to_operation es) 0 ≡ some 0
  unfolding replay adjust
  replay_root [] h = refl
  replay_root (insert i v ∷ es) h = ground (arith, replay_root es h.1)
  replay_root (remove i ∷ es) h = ground (arith, replay_root es h.1)

  stable-replay :
      (d : DeltaStabilization) (es : List (Edit A)) (p : ℕ)
      → IsValid d
      → p + 1 < 2 ^ 48
      → length es ≤ 256
      → d.next_operation_index + length es < 2 ^ 16
      → KeepsRoot es
      → stable_inode_to_flouds_inode (log_all d es) (flouds_inode_to_stable_inode d p)
        ≡ replay (map to_operation es) p
  stable-replay d es p v small few room keeps =
      let now = d.next_operation_index in
      let s = log_all-Since d es now [] (now-Since d v) (omega arith) (omega arith) in
      elim (ℕ_discrete (now * 2 ^ 48 + (p + 1)) 1) [
        | yes root ↦
            rw (encode d p v.bound small, root, decode_root (log_all d es))
              (let first : p ≡ 0 = omega (arith, root) in rw first (sym (replay_root es keeps)))
        | no other ↦ rw (
          encode d p v.bound small,
          decode (log_all d es) now p v.bound small other s.kept (omega (arith, s.reached)),
          s.suffix,
        )
      ]

  -- Take a valid log `d` and nodes among which `a` stands at `p` (below 2^48 - 1) and nowhere else.
  -- Issue the inode number of `p`, then log at most 256 edits that are in range, insert no second
  -- `a` and leave position 0 alone, with operation indices that stay below 2^16. The old number
  -- then resolves to where `a` stands now, or to nothing if `a` has been removed.
  pub stable_inode_follows :
      (d : DeltaStabilization) (xs : List A) (es : List (Edit A)) (a : A) (p : ℕ)
      → IsValid d
      → p + 1 < 2 ^ 48
      → length es ≤ 256
      → d.next_operation_index + length es < 2 ^ 16
      → KeepsRoot es
      → AllFit xs es
      → AllSpare a es
      → length xs + length es < 2 ^ 64
      → Located a xs (some p)
      → Located a
          (apply_all xs es)
          (stable_inode_to_flouds_inode (log_all d es) (flouds_inode_to_stable_inode d p))
  stable_inode_follows d xs es a p v small few room keeps fit new fits h =
      rw (stable-replay d es p v small few room keeps) (replay_follows xs es a p fit new fits h)

  -- An inode number other than the root's that is older than the log's 256 entries resolves to
  -- nothing, as long as the operation indices have stayed below 2^16.
  pub stable_inode_expires :
      (d : DeltaStabilization) (es : List (Edit A)) (p : ℕ)
      → IsValid d
      → p + 1 < 2 ^ 48
      → 256 < length es
      → d.next_operation_index + length es < 2 ^ 16
      → flouds_inode_to_stable_inode d p ≢ 1
      → stable_inode_to_flouds_inode (log_all d es) (flouds_inode_to_stable_inode d p) ≡ none
  stable_inode_expires d es p v small many room other =
      let now = d.next_operation_index in
      let later = log_all-IsValid d es v room in
      rw (encode d p v.bound small) (
        decode_outside (log_all d es) now p small (rw (encode d p v.bound small) at other)
          (omega (arith, later.0.short, later.0.span, later.1)))

-- What the log holds behind an operation: the entries of before, the oldest dropped where there are
-- 256 of them, and the operation.
abbrev pub logged : DeltaStabilization → Bool → ℕ → List DeltaOperation
logged d is_insert inode =
    (if leb 256 (length d.operations) then drop 1 d.operations else d.operations)
    ++ record { is_insert = is_insert; inode = inode } ∷ []

wrap-zero :
    (d : DeltaStabilization) (is_insert : Bool) (inode : ℕ)
    → d.next_operation_index ≡ 2 ^ 16 - 1
    → append_operation d is_insert inode ≡ record {
      operations = logged d is_insert inode;
      first_operation_index = 0;
      next_operation_index = 0;
    }
unfolding append_operation trim push_operation wrap_indices
wrap-zero d is_insert inode last = ground arith

-- The operation that takes the operation index to 2^16 resets both indices but keeps the log: behind
-- it the log holds the entries of before, the oldest dropped where there are 256 of them, and the
-- operation; and an inode number issued right after it, for a position other than the root's and
-- below 2^48 - 1, is moved by every one of them.
pub wrap_replays_log :
    (d : DeltaStabilization) (is_insert : Bool) (inode p : ℕ)
    → d.next_operation_index ≡ 2 ^ 16 - 1
    → 0 < p
    → p + 1 < 2 ^ 48
    → let d' = append_operation d is_insert inode in
      (d'.first_operation_index ≡ 0)
      × (d'.next_operation_index ≡ 0)
      × (d'.operations ≡ logged d is_insert inode)
      × (stable_inode_to_flouds_inode d' (flouds_inode_to_stable_inode d' p)
          ≡ replay (logged d is_insert inode) p)
wrap_replays_log d is_insert inode p last pos small =
    let d' : DeltaStabilization = record {
      operations = logged d is_insert inode;
      first_operation_index = 0;
      next_operation_index = 0;
    } in
    rw (wrap-zero d is_insert inode last) (
      refl,
      refl,
      refl,
      ap (stable_inode_to_flouds_inode d') (encode d' p (omega arith) small)
          ∙ decode d' 0 p (omega arith) small (omega arith) (omega arith) (omega arith)
          ∙ ap (λ (k : ℕ). replay (drop k d'.operations) p) {x = 0 - 0} {y = 0} (omega arith),
    )
