-- ===== src/BestFit/Manager/Content.antt =====
-- What becomes of the bytes of an allocation, and the best-fit allocation as an AllocationManager
-- (src/fsm/allocation/best_fit_allocation.cpp).
use succinct_filesystem.Base.{
  ℕ, ◌+◌, ◌-◌, ◌≡◌, true, inl, inr, refl, ap, ◌∙◌, List, arith, leb, Bool-cases,
}
use succinct_filesystem.Base.Seq.{length}
use succinct_filesystem.BitVector.{BitVector}
use succinct_filesystem.Device.{BlockDevice}
use succinct_filesystem.Allocation.{AllocationManager}
use succinct_filesystem.BestFit
use succinct_filesystem.BestFit.{blocks_for}
use succinct_filesystem.BestFit.Transfer
use succinct_filesystem.BestFit.Transfer.Laws.{read-write, length-read}
use succinct_filesystem.BestFit.Manager
use succinct_filesystem.BestFit.Manager.{BestFitAllocation}

leb_self : (n : ℕ) → leb n n ≡ true
leb_self n = ground arith

module _ (B : BitVector) (V : BlockDevice) where
  -- A resize to the size that the allocation has changes nothing.
  pub resize_same :
      (a : BestFitAllocation B V) (handle size : ℕ)
      → Manager.resize B V a handle size size ≡ (a, handle)
  unfolding Manager.resize BestFit.set_blocks
  resize_same a handle size =
      let blocks = blocks_for V.block_size size in
      let none_more : blocks - blocks ≡ 0 = omega arith in rw (leb_self blocks, none_more) refl

  copied :
      (before after : V.Carrier) (handle new_handle size : ℕ)
      → after ≡ Transfer.write V before new_handle (Transfer.read V before handle size 0) 0
      → Transfer.read V after new_handle size 0 ≡ Transfer.read V before handle size 0
  copied before after handle new_handle size e =
      let buffer = Transfer.read V before handle size 0 in
      let same : length buffer ≡ size = length-read V before handle size 0 in
      ap (λ d. Transfer.read V d new_handle size 0) e
      ∙ ap (λ (n : ℕ). Transfer.read V (Transfer.write V before new_handle buffer 0) new_handle n 0)
          {x = size} {y = length buffer} (omega (arith, same))
      ∙ read-write V new_handle buffer 0 before

  -- On every branch of resize, be it that the allocation shrinks, grows in place or moves, the new
  -- handle reads the old bytes.
  pub resize-content :
      (a : BestFitAllocation B V) (handle old_size new_size : ℕ)
      → Manager.read B V
          (Manager.resize B V a handle old_size new_size).0
          (Manager.resize B V a handle old_size new_size).1
          old_size
          0
        ≡ Manager.read B V a handle old_size 0
  unfolding Manager.read Manager.resize Manager.move Manager.allocate Manager.write Manager.free
  resize-content a handle old_size new_size =
      let old_blocks = blocks_for V.block_size old_size in
      let new_blocks = blocks_for V.block_size new_size in
      elim (Bool-cases (leb new_blocks old_blocks)) [
        | inl shrinks ↦ rw shrinks refl
        | inr grows ↦
            rw grows
              (elim (Bool-cases (
                BestFit.all_free B (new_blocks - old_blocks) a.block_bitmap
                  (handle + old_blocks))) [
                    | inl in_place ↦ rw in_place refl
                    | inr moves ↦ rw moves (copied a.block_device _ handle _ old_size refl)
                  ])
      ]

  pub manager_read-write :
      (a : BestFitAllocation B V) (handle : ℕ) (bytes : List ℕ) (offset : ℕ)
      → Manager.read B V (Manager.write B V a handle bytes offset) handle (length bytes) offset
        ≡ bytes
  unfolding Manager.read Manager.write
  manager_read-write a handle bytes offset = read-write V handle bytes offset a.block_device

  pub manager_length-read :
      (a : BestFitAllocation B V) (handle size offset : ℕ)
      → length (Manager.read B V a handle size offset) ≡ size
  unfolding Manager.read
  manager_length-read a handle size offset = length-read V a.block_device handle size offset

abbrev pub best_fit_allocation : BitVector → BlockDevice → AllocationManager
best_fit_allocation B V = record {
  Carrier = BestFitAllocation B V;
  block_size = V.block_size;
  allocate = Manager.allocate B V;
  free = Manager.free B V;
  read = Manager.read B V;
  write = Manager.write B V;
  resize = Manager.resize B V;
  get_total_blocks = Manager.get_total_blocks B V;
  get_used_blocks = Manager.get_used_blocks B V;
  block_size-pos = V.block_size-pos;
  length-read = manager_length-read B V;
  read-write = manager_read-write B V;
}
