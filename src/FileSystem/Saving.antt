-- ===== src/FileSystem/Saving.antt =====
-- Saving the file system (src/fsm/file_system_manager.cpp, save).
use succinct_filesystem.Base.{ℕ, suc, ◌≡◌, refl, ap, inl, inr, ◌==◌, ==_iff, Bool-cases}
use succinct_filesystem.BitVector.{BitVector}
use succinct_filesystem.NameSequence.{NameSequence}
use succinct_filesystem.Flouds.{Flouds}
use succinct_filesystem.Inodes.{ArrayInodeManager}
use succinct_filesystem.Allocation.{AllocationManager}
use succinct_filesystem.Serial.{Serializable}
use succinct_filesystem.Device.{BlockDevice}
use succinct_filesystem.BestFit.Manager.{BestFitAllocation}
use succinct_filesystem.BestFit.Manager.Content.{best_fit_allocation, resize_same}
use succinct_filesystem.FileSystem
use succinct_filesystem.FileSystem.{FileSystem}

module _ (B : BitVector) (N : NameSequence) (A : AllocationManager) (SF : Serializable (Flouds B N))
    (SI : Serializable ArrayInodeManager) (SA : Serializable A.Carrier) where
  pub save-kept :
      (fs : FileSystem B N A)
      → ((FileSystem.save B N A SF SI SA fs).flouds ≡ fs.flouds)
        × ((FileSystem.save B N A SF SI SA fs).inode_manager ≡ fs.inode_manager)
        × ((FileSystem.save B N A SF SI SA fs).delayed_write ≡ fs.delayed_write)
        × ((FileSystem.save B N A SF SI SA fs).delayed_write_buffer ≡ fs.delayed_write_buffer)
  unfolding FileSystem.save
  save-kept fs = (refl, refl, refl, refl)

module _ (B : BitVector) (N : NameSequence) (C : BitVector) (V : BlockDevice)
    (SF : Serializable (Flouds B N)) (SI : Serializable ArrayInodeManager)
    (SA : Serializable (BestFitAllocation C V)) where
  settled_now :
      (rounds : ℕ) (a : BestFitAllocation C V) (handle : ℕ)
      → FileSystem.settle B N
          (best_fit_allocation C V)
          SF
          SI
          SA
          (suc rounds)
          a
          handle
          (SA.get_serialized_size a)
        ≡ (a, handle, SA.get_serialized_size a)
  unfolding FileSystem.settle
  settled_now rounds a handle =
      let size = SA.get_serialized_size a in rw ((==_iff size size).1 refl) refl

  -- Over the best-fit allocation, in whatever form it is saved and whatever size the loop starts
  -- with, the loop that lets that size settle ends within two rounds: with two rounds or more it gives
  -- the number of bytes that are then saved. But it gets there by taking over the new size: neither the
  -- bitmap nor the blocks nor the handle have changed, so nothing has been allocated for bytes that
  -- have come on top.
  pub settle_ends :
      (rounds : ℕ) (a : BestFitAllocation C V) (handle size : ℕ)
      → FileSystem.settle B N (best_fit_allocation C V) SF SI SA (suc (suc rounds)) a handle size
        ≡ (a, handle, SA.get_serialized_size a)
  unfolding FileSystem.settle
  settle_ends rounds a handle size =
      let new_size = SA.get_serialized_size a in
      elim (Bool-cases (size == new_size)) [
        | inl same ↦ rw same (ap (λ (n : ℕ). (a, handle, n)) ((==_iff size new_size).0 same))
        | inr other ↦ rw (other, resize_same C V a handle new_size) (settled_now rounds a handle)
      ]
