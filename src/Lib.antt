-- ===== src/Lib.antt =====
-- The succinct filesystem keeps a directory tree in space close to the information-theoretic
-- bound, behind a FUSE front end. Its parts, from the bottom up:
--
-- - Base: lists with positions (std::vector), Boolean tests and bits of numbers, shared by all.
--   No code of the repository is modelled there.
-- - BitVector: the abstract class of src/bitvector/bitvector.hpp as a record of operations and laws
--   (`view` is the bit sequence); BitVector.Count says what rank and select mean on a plain
--   sequence. BitVector.Array is ArrayBitVectorStrategy (src/bitvector/array_bitvector.cpp),
--   with the loops as recursion on the rounds that are left; BitVector.Array.Laws fills the record.
--   BitVector.Word is WordBitVectorStrategy (src/bitvector/word_bitvector.cpp), a list of words; it
--   is not shown to fill the record here.
-- - WaveletTree: TwoBitWaveletTree (src/wavelet_tree/two_bit_wavelet_tree.hpp) over any BitVector.
--   `set_symbol` is `set`. WaveletTree.Refine.Holds relates its three bit vectors to a sequence.
-- - NameSequence: the abstract class of src/name_sequence/name_sequence.hpp as a record, and
--   NameSequence.Array, ArrayNameSequenceStrategy (src/name_sequence/array_name_sequence.cpp).
-- - Flouds: the directory tree of src/flouds/flouds.cpp over a BitVector, the wavelet tree
--   and a NameSequence. Flouds.Shape.IsTree is the well-formedness of its sequences;
--   Flouds.Refine.Holds ties a state to them.
-- - Delta: the stable inode numbers of src/fsm/delta/delta_stabilization.hpp, which log the
--   insertions and removals of FLOUDS and replay them. Delta.Track.Edit is such an edit of a
--   sequence of nodes.
-- - Device: BlockDevice (src/block_device/block_device.hpp) as a record of operations and laws, with a
--   device in memory as its instance. Allocation: AllocationManager
--   (src/fsm/allocation/allocation_manager.hpp) as such a record.
-- - BestFit: src/fsm/allocation/best_fit_allocation.cpp over any BitVector: BestFit itself is the
--   bitmap, BestFit.Transfer the loops of read and write over any BlockDevice, and BestFit.Manager
--   the whole object with resize, which fills AllocationManager; BestFit.Manager.Allotted has
--   allocations of any sizes side by side.
-- - Extents: the extents of src/fsm/allocation/extent_allocation.cpp over any BitVector; its loops
--   over blocks are those of BestFit.
-- - Inodes: Inode (src/fsm/inode/inode.hpp) and ArrayInodeManagerStrategy
--   (src/fsm/inode/array_inode.cpp). Inodes.Hierarchy is HierarchyInodeManagerStrategy
--   (src/fsm/inode/hierarchy_inode.cpp) over any AllocationManager whose allocations stay apart, which
--   is the record Allocation.Apart.Separation; BestFit.Manager.Separate fills it. A pointer to an
--   inode is an index into the cached chunk, which is what the source points into;
--   Inodes.Hierarchy.View has the sequence that a manager stands for, and
--   Inodes.Hierarchy.Load.IsValid its invariant.
-- - Serial: Serializable (src/serialization/serializable.hpp), and in its children the bytes that the
--   serialize and deserialize methods of these classes write and read: Serial.Bits those of the word
--   bit vector, Serial.Packed of the array bit vector (into a clear buffer), Serial.Names of the
--   names, Serial.Nodes of the inodes, Serial.Tree of the wavelet tree and FLOUDS, over any format of
--   its bit vectors. The program's FLOUDS has word bit vectors, which are not shown to fill BitVector:
--   it is the format of the array bit vector that Serial.Tree is applied to.
-- - FileSystem: FileSystemManager (src/fsm/file_system_manager.cpp), with the delayed write, over any
--   AllocationManager. `place_file` and `write_through` are the lines by which it sizes and writes a
--   file.
-- - Fuse: the handlers of src/fuse.cpp. Fuse has those that read, Fuse.Handlers the others and the
--   table of all, `handle`, from a Request to the new Session and the Reply.
--
-- State is passed explicitly: an operation takes the record of the object's fields and returns the
-- new one. A thrown std::out_of_range is `none`. Numbers are naturals; the 64-bit wrap-around is
-- written out in Delta, where the code depends on it, and elsewhere sizes stay far below 2^64. The
-- loops recurse on the number of rounds that the source's bounds give. Three loops have none: read
-- and write of BestFit.Transfer run on one unit of fuel for each byte, which is enough since a round
-- moves a byte at least, and the loop of save has two rounds, which is enough over the best-fit
-- allocation, the one that is mounted (FileSystem.Saving).
--
-- Not modelled: serialize of the extent allocation (FileSystem takes what is saved through the
-- interface Serializable); the wrappers of the hybrid, saskeli and immer libraries, which the
-- interfaces stand for; the concatenated and hash name sequences; read and write of the extent
-- allocation; path lookup of FLOUDS; main of src/fuse.cpp, which sets up libfuse; the build without
-- DELAYED_ALLOCATION or DELTA_STABILIZATION.
pub mod Base
pub mod Delta
pub mod BitVector
pub mod WaveletTree
pub mod NameSequence
pub mod Flouds
pub mod Device
pub mod Allocation
pub mod BestFit
pub mod Inodes
pub mod Serial
pub mod FileSystem
pub mod Fuse
pub mod Extents
