-- ===== src/Delta/Log.antt =====
-- The bounded log and the two translations of inode numbers
-- (src/fsm/delta/delta_stabilization.hpp).
use succinct_filesystem.Base.{
  ℕ, zero, suc, ◌+◌, ◌-◌, ◌^◌, ◌≤◌, ◌<◌, ◌≡◌, refl, List, [], ◌∷◌, ◌++◌, arith, ap, ◌∙◌, map, Bool,
}
use mathlib.Core.List.{append_assoc, append-nil}
use native.Mathlib.Decide.{dec_le}
use succinct_filesystem.Base.Seq.{
  length, drop, length-append, length-drop, drop-append_le, drop_all,
}
use succinct_filesystem.Delta.{
  DeltaOperation, DeltaStabilization, append_operation, trim, push_operation, wrap_indices,
  record_insert, record_remove,
}
use succinct_filesystem.Delta.Track.{Edit, insert, remove, to_operation}

-- The log holds the operations from `first_operation_index` up to `next_operation_index`.
pub record IsValid (d : DeltaStabilization) : Type 0 where
  pub short : length d.operations ≤ 256
  pub span : d.next_operation_index ≡ d.first_operation_index + length d.operations
  pub bound : d.next_operation_index < 2 ^ 16

-- The operations since position `pos` of the log are `ops`.
pub record Since (d : DeltaStabilization) (pos : ℕ) (ops : List DeltaOperation) : Type 0 where
  pub valid : IsValid d
  pub kept : d.first_operation_index ≤ pos
  pub reached : d.next_operation_index ≡ pos + length ops
  pub suffix : drop (pos - d.first_operation_index) d.operations ≡ ops

drop-drop {ℓ} : {A : Type ℓ} (n : ℕ) (xs : List A) → drop n (drop 1 xs) ≡ drop (suc n) xs
drop-drop zero [] = refl
drop-drop (suc n) [] = refl
drop-drop n (x ∷ xs) = refl

abbrev next_of : DeltaStabilization → ℕ
next_of d = d.next_operation_index

-- Dropping the oldest entry of a full log.
record Trimmed (d t : DeltaStabilization) : Type 0 where
  short : length t.operations ≤ 255
  next_kept : t.next_operation_index ≡ d.next_operation_index
  span : t.next_operation_index ≡ t.first_operation_index + length t.operations

trim-Trimmed : (d : DeltaStabilization) → IsValid d → Trimmed d (trim d)
unfolding trim
trim-Trimmed d v = ground (arith, length-drop 1 d.operations)

trim_full :
    (d : DeltaStabilization)
    → 256 ≤ length d.operations
    → d.first_operation_index < 2 ^ 16
    → trim d ≡ record d {
      operations = drop 1 d.operations;
      first_operation_index = d.first_operation_index + 1;
    }
unfolding trim
trim_full d full small = ground arith

trim-suffix :
    (d : DeltaStabilization) (pos : ℕ) (ops : List DeltaOperation)
    → Since d pos ops
    → length ops < 256
    → ((trim d).first_operation_index ≤ pos)
      × (drop (pos - (trim d).first_operation_index) (trim d).operations ≡ ops)
unfolding trim
trim-suffix d pos ops s few = elim (dec_le 256 (length d.operations)) [
  | yes full ↦
      let base = d.first_operation_index in
      let size = ap length s.suffix in
      let shown = length-drop (pos - base) d.operations in
      let past : base + 1 ≤ pos = omega (arith, size, shown, s.kept) in
      rw (trim_full d full (omega (arith, s.valid.span, s.valid.bound))) (
        past,
        drop-drop (pos - (base + 1)) d.operations
            ∙ ap (λ (k : ℕ). drop k d.operations) {x = suc (pos - (base + 1))} (omega (arith, past))
            ∙ s.suffix,
      )
  | no room ↦ ground arith
]

append_lem :
    (d : DeltaStabilization) (b : Bool) (i : ℕ)
    → IsValid d
    → d.next_operation_index + 1 < 2 ^ 16
    → append_operation d b i ≡ record {
      operations = (trim d).operations ++ record { is_insert = b; inode = i } ∷ [];
      first_operation_index = (trim d).first_operation_index;
      next_operation_index = d.next_operation_index + 1;
    }
unfolding append_operation push_operation wrap_indices
append_lem d b i v room = ground (arith, trim-Trimmed d v)

append-IsValid :
    (d : DeltaStabilization) (b : Bool) (i : ℕ)
    → IsValid d
    → d.next_operation_index + 1 < 2 ^ 16
    → IsValid (append_operation d b i)
      × ((append_operation d b i).next_operation_index ≡ d.next_operation_index + 1)
append-IsValid d b i v room = rw (append_lem d b i v room) (
    ground (
      arith,
      trim-Trimmed d v,
      length-append (trim d).operations (record { is_insert = b; inode = i } ∷ []),
    ))

append-Since :
    (d : DeltaStabilization) (b : Bool) (i pos : ℕ) (ops : List DeltaOperation)
    → Since d pos ops
    → length ops < 256
    → d.next_operation_index + 1 < 2 ^ 16
    → Since (append_operation d b i) pos (ops ++ record { is_insert = b; inode = i } ∷ [])
append-Since d b i pos ops s few room =
    let op : DeltaOperation = record { is_insert = b; inode = i } in
    let t = trim-Trimmed d s.valid in
    let kept = trim-suffix d pos ops s few in
    record {
      valid = (append-IsValid d b i s.valid room).0;
      kept = rw (append_lem d b i s.valid room) kept.0;
      reached =
          omega
            (arith, (append-IsValid d b i s.valid room).1, length-append ops (op ∷ []), s.reached);
      suffix = rw (
        append_lem d b i s.valid room,
        drop-append_le (pos - (trim d).first_operation_index) (trim d).operations (op ∷ [])
            (omega (arith, t.span, t.next_kept, s.reached)),
        kept.1,
      );
    }

pub now-Since : (d : DeltaStabilization) → IsValid d → Since d d.next_operation_index []
now-Since d v = record {
  valid = v;
  kept = omega (arith, v.span);
  reached = omega arith;
  suffix = drop_all _ d.operations (omega (arith, v.span));
}

module _ {ℓ} {A : Type ℓ} where
  -- What the file system records of an edit.
  pub log : DeltaStabilization → Edit A → DeltaStabilization
  log d (insert i v) = record_insert d i
  log d (remove i) = record_remove d i

  pub log_all : DeltaStabilization → List (Edit A) → DeltaStabilization
  log_all d [] = d
  log_all d (e ∷ es) = log_all (log d e) es

module _ {ℓ} {A : Type ℓ} where
  log-append :
      (d : DeltaStabilization) (e : Edit A)
      → log d e ≡ append_operation d (to_operation e).is_insert (to_operation e).inode
  unfolding log record_insert record_remove
  log-append d (insert i v) = refl
  log-append d (remove i) = refl

  log-Since :
      (d : DeltaStabilization) (e : Edit A) (pos : ℕ) (ops : List DeltaOperation)
      → Since d pos ops
      → length ops < 256
      → d.next_operation_index + 1 < 2 ^ 16
      → Since (log d e) pos (ops ++ to_operation e ∷ [])
  log-Since d e pos ops s few room =
      rw (log-append d e) (append-Since d _ (to_operation e).inode pos ops s few room)

  pub log_all-Since :
      (d : DeltaStabilization) (es : List (Edit A)) (pos : ℕ) (ops : List DeltaOperation)
      → Since d pos ops
      → length ops + length es ≤ 256
      → pos + length ops + length es < 2 ^ 16
      → Since (log_all d es) pos (ops ++ map to_operation es)
  unfolding log_all
  log_all-Since d [] pos ops s few room = rw (append-nil ops) s
  log_all-Since d (e ∷ es) pos ops s few room =
      rw (append_assoc ops (to_operation e ∷ []) (map to_operation es)) at (
        log_all-Since (log d e) es pos (ops ++ to_operation e ∷ [])
          (log-Since d e pos ops s (omega arith) (omega (arith, s.reached)))
          (omega (arith, length-append ops (to_operation e ∷ [])))
          (omega (arith, length-append ops (to_operation e ∷ []))))

  pub log_all-IsValid :
      (d : DeltaStabilization) (es : List (Edit A))
      → IsValid d
      → d.next_operation_index + length es < 2 ^ 16
      → IsValid (log_all d es)
        × ((log_all d es).next_operation_index ≡ d.next_operation_index + length es)
  unfolding log_all
  log_all-IsValid d [] v room = (v, omega arith)
  log_all-IsValid d (e ∷ es) v room =
      let step =
        append-IsValid d (to_operation e).is_insert (to_operation e).inode v (omega arith) in
      let rest =
        log_all-IsValid (log d e) es (rw (log-append d e) step.0)
          (omega (arith, step.1, ap next_of (log-append d e))) in
      (rest.0, omega (arith, rest.1, step.1, ap next_of (log-append d e)))
