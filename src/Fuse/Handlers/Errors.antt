-- ===== src/Fuse/Handlers/Errors.antt =====
-- What the FUSE handlers do on errors (src/fuse.cpp).
use succinct_filesystem.Base.{ℕ, ◌≡◌, ◌≢◌, refl, Option, none, some, arith}
use succinct_filesystem.BitVector.{BitVector}
use succinct_filesystem.NameSequence.{NameSequence, Name}
use succinct_filesystem.Delta.{stable_inode_to_flouds_inode}
use succinct_filesystem.Flouds.{Flouds}
use succinct_filesystem.Inodes.{ArrayInodeManager}
use succinct_filesystem.Allocation.{AllocationManager}
use succinct_filesystem.Serial.{Serializable}
use succinct_filesystem.Fuse
use succinct_filesystem.Fuse.{
  Errno, done, estale, enotdir, enoent, eisdir, enotempty, eio, Stat, no_stat, Entry, Reply, err,
  entry, created, attributes, written, directory, terminated, bytes, opened, statistics, ToSet,
  Search, thrown, missing, found, Session,
}
use succinct_filesystem.Fuse.Handlers
use succinct_filesystem.Fuse.Handlers.{
  Request, lookup, getattr, setattr, mkdir, unlink, rmdir, open_file, read, write, readdir, stats,
  create,
}

-- The inode number that a request is about.
abbrev pub target : Request → Option ℕ
target (lookup parent name) = some parent
target (getattr ino) = some ino
target (setattr ino attr to_set) = some ino
target (mkdir parent name mode) = some parent
target (unlink parent name) = some parent
target (rmdir parent name) = some parent
target (open_file ino) = some ino
target (read ino size off) = some ino
target (write ino buffer off) = some ino
target (readdir ino off) = some ino
target stats = none
target (create parent name mode) = some parent

some_inj : {a b : ℕ} → some a ≡ some b → a ≡ b
some_inj e = cc

module _ (B : BitVector) (N : NameSequence) (A : AllocationManager) (SF : Serializable (Flouds B N))
    (SI : Serializable ArrayInodeManager) (SA : Serializable A.Carrier)
    (direntry_size : Name → ℕ) where
  resolve_stale :
      (s : Session B N A) (ino ino' : ℕ) (k : ℕ → Session B N A × Reply)
      → some ino ≡ some ino'
      → stable_inode_to_flouds_inode s.delta_stabilization ino' ≡ none
      → Fuse.resolve B N A s ino k ≡ (s, err estale)
  unfolding Fuse.resolve
  resolve_stale s ino ino' k e stale = rw (some_inj e, stale, Fuse.resolve) refl

  pub stale_lem :
      (now : ℕ) (s : Session B N A) (r : Request) (ino : ℕ)
      → target r ≡ some ino
      → stable_inode_to_flouds_inode s.delta_stabilization ino ≡ none
      → Handlers.handle B N A SF SI SA direntry_size now s r ≡ (s, err estale)
  unfolding Handlers.handle Fuse.lookup Fuse.getattr Fuse.open_file Fuse.read
      Handlers.handle_setattr Handlers.handle_write Handlers.handle_readdir Handlers.handle_add
      Handlers.handle_mkdir Handlers.handle_create Handlers.handle_unlink Handlers.handle_rmdir
  stale_lem now s (lookup parent name) ino e stale = resolve_stale s parent ino _ e stale
  stale_lem now s (getattr i) ino e stale = resolve_stale s i ino _ e stale
  stale_lem now s (setattr i attr to_set) ino e stale = resolve_stale s i ino _ e stale
  stale_lem now s (mkdir parent name mode) ino e stale = resolve_stale s parent ino _ e stale
  stale_lem now s (unlink parent name) ino e stale = resolve_stale s parent ino _ e stale
  stale_lem now s (rmdir parent name) ino e stale = resolve_stale s parent ino _ e stale
  stale_lem now s (open_file i) ino e stale = resolve_stale s i ino _ e stale
  stale_lem now s (read i size off) ino e stale = resolve_stale s i ino _ e stale
  stale_lem now s (write i buffer off) ino e stale = resolve_stale s i ino _ e stale
  stale_lem now s (readdir i off) ino e stale = resolve_stale s i ino _ e stale
  stale_lem now s stats ino e stale = cc
  stale_lem now s (create parent name mode) ino e stale = resolve_stale s parent ino _ e stale

  -- A request that is refused, with any error but EIO, changes nothing: neither the file system nor
  -- the log of inode numbers.
  pub refused_kept :
      (now : ℕ) (s : Session B N A) (r : Request) (e : Errno)
      → (Handlers.handle B N A SF SI SA direntry_size now s r).1 ≡ err e
      → e ≢ eio
      → e ≢ done
      → (Handlers.handle B N A SF SI SA direntry_size now s r).0 ≡ s
  unfolding Handlers.handle Fuse.resolve Fuse.lookup Fuse.getattr Fuse.open_file Fuse.read
      Fuse.stats Handlers.handle_setattr Handlers.handle_write Handlers.handle_readdir
      Handlers.handle_add Handlers.handle_mkdir Handlers.handle_create Handlers.handle_unlink
      Handlers.handle_rmdir Handlers.remove_child
  refused_kept now s (lookup parent name) e refused failed final = ground arith
  refused_kept now s (getattr i) e refused failed final = ground arith
  refused_kept now s (setattr i attr to_set) e refused failed final = ground arith
  refused_kept now s (mkdir parent name mode) e refused failed final = ground arith
  refused_kept now s (unlink parent name) e refused failed final = ground arith
  refused_kept now s (rmdir parent name) e refused failed final = ground arith
  refused_kept now s (open_file i) e refused failed final = ground arith
  refused_kept now s (read i size off) e refused failed final = ground arith
  refused_kept now s (write i buffer off) e refused failed final = ground arith
  refused_kept now s (readdir i off) e refused failed final = ground arith
  refused_kept now s stats e refused failed final = ground arith
  refused_kept now s (create parent name mode) e refused failed final = ground arith
