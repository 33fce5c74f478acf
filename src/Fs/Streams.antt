-- ===== src/Fs/Streams.antt =====
-- The handlers of pafs/page_align_fs.cc for directories. `fh` is the address of a Directory.
use pagealignfs.Prelude.{
  ℕ, zero, suc, Bool, true, false, List, [], ◌∷◌, ◌++◌, Option, none, some, ◌==◌, ◌+◌, bit_or,
  if◌then◌else◌,
}
use pagealignfs.Prelude.Bytes.{text}
use pagealignfs.System.Types.{Dirent, FileInfo}
use pagealignfs.System.Constants.{o_directory, o_nofollow, o_cloexec}
use pagealignfs.World.{Directory}
use pagealignfs.Status.{StatusOr, ok, err}
use pagealignfs.Effect
use pagealignfs.Effect.{M, gets, modify, fault, diverge}
use pagealignfs.Effect.Fallible.{
  E, pure, return, lift, log_if_error, unless_ok, finally, ◌>>=◌, ◌>>◌,
}
use pagealignfs.Syscalls.Files.{openat, fsync, fdatasync}
use pagealignfs.Syscalls.Streams.{readdir, seekdir, dirfd}
use pagealignfs.Resource.Stream
use pagealignfs.Inode.{get_inode, get_fd}
use pagealignfs.InodeCache.{ref, unref}
use pagealignfs.Request.DirsBuilder
use pagealignfs.Request.DirsBuilder.{FuseDirsBuilder, add_dir_entry}
use pagealignfs.Request.Replies.{reply_open}
use pagealignfs.Fs.Entries.{find_or_create_inode, create_fuse_entry_param}

unfoldable pub find_directory : ℕ → List (ℕ × Directory) → Option Directory
find_directory p [] = none
find_directory p ((q, d) ∷ rest) = if q == p then some d else find_directory p rest

unfoldable pub remove_directory : ℕ → List (ℕ × Directory) → List (ℕ × Directory)
remove_directory p [] = []
remove_directory p ((q, d) ∷ rest) = if q == p then rest else (q, d) ∷ remove_directory p rest

unfoldable pub or_fault : Option Directory → M Directory
or_fault none = fault
or_fault (some d) = Effect.pure d

-- *reinterpret_cast<Directory *>(fi.fh)
unfoldable pub get_directory : ℕ → M Directory
unfolding find_directory or_fault
get_directory fh = Effect.◌>>=◌ (gets (λ w. find_directory fh w.directories)) or_fault

-- new Directory(std::move(d))
unfoldable pub new_directory : Directory → M ℕ
new_directory d = Effect.◌>>=◌ (gets (λ w. w.next_address)) λ p.
    Effect.◌>>◌
      (modify λ w. record w { directories = (p, d) ∷ w.directories; next_address = p + 1 })
      (Effect.pure p)

-- delete, which does nothing at the null pointer
unfoldable pub delete_directory : ℕ → M (Unit {0})
unfolding get_directory remove_directory Stream.destroy
delete_directory fh =
    if fh == 0
    then Effect.pure tt
    else Effect.◌>>=◌ (get_directory fh) λ d.
      Effect.◌>>◌ (Stream.destroy d)
        (modify λ w. record w { directories = remove_directory fh w.directories })

unfoldable pub open_dir : ℕ → FileInfo → E (Unit {0})
unfolding openat Stream.create new_directory reply_open
open_dir ino fi = do
  inode ← lift (get_inode ino)
  dirfd ← openat (get_fd inode) (text ".") (bit_or (bit_or o_directory o_nofollow) o_cloexec) 0
  d ← Stream.create dirfd
  p ← lift (new_directory d)
  reply_open (record fi { fh = p })

unfoldable pub release_dir : ℕ → FileInfo → E (Unit {0})
unfolding delete_directory
release_dir ino fi = do _ ← lift (get_inode ino); lift (delete_directory fi.fh)

unfoldable pub f_sync_dir : ℕ → (datasync : Bool) → FileInfo → E (Unit {0})
unfolding get_directory dirfd fsync fdatasync
f_sync_dir ino datasync fi = do
  _ ← lift (get_inode ino)
  d ← lift (get_directory fi.fh)
  dfd ← dirfd d.dir
  if datasync then fdatasync dfd else fsync dfd

-- How an entry ends its round of the loop: there is no room for it, it is listed, or it is listed
-- and its shared_ptr is kept in `inodes`.
pub data Progress : Type 0 where
  full : Progress
  listed retained : FuseDirsBuilder → Progress

unfoldable pub add_entry : ℕ → Dirent → (plus : Bool) → FuseDirsBuilder → E Progress
unfolding create_fuse_entry_param add_dir_entry ref
add_entry ino ent plus dirs = do
  param ← create_fuse_entry_param ino plus
  (added, dirs') ← lift (add_dir_entry dirs ent.d_name param ent.d_off)
  if added
      then (if plus then (do ref ino 1; pure (retained dirs')) else pure (listed dirs'))
      else pure full

-- The local shared_ptr gives its reference back, unless the vector holds a copy of it.
unfoldable pub end_round : ℕ → StatusOr Progress → M (Unit {0})
unfolding unref Effect.pure
end_round ino (ok (retained dirs)) = Effect.pure tt
end_round ino _ = log_if_error (unref ino 1)

-- The variables of the loop when it is left: the builder or the error, and `inodes`.
abbrev pub Listing : Type 0
Listing = StatusOr FuseDirsBuilder × List ℕ

unfoldable pub next_round :
    (FuseDirsBuilder → List ℕ → M Listing)
    → FuseDirsBuilder
    → List ℕ
    → ℕ
    → StatusOr Progress
    → M Listing
unfolding Effect.pure
next_round loop dirs inodes ino (err st) = Effect.pure (err st, inodes)
next_round loop dirs inodes ino (ok full) = Effect.pure (ok dirs, inodes)
next_round loop dirs inodes ino (ok (listed dirs')) = loop dirs' inodes
next_round loop dirs inodes ino (ok (retained dirs')) = loop dirs' (inodes ++ ino ∷ [])

unfoldable pub list_found :
    (FuseDirsBuilder → List ℕ → M Listing)
    → Dirent
    → (plus : Bool) → FuseDirsBuilder
    → List ℕ
    → StatusOr ℕ
    → M Listing
unfolding add_entry end_round next_round Effect.◌>>=◌ Effect.pure
list_found loop ent plus dirs inodes (err st) = Effect.pure (err st, inodes)
list_found loop ent plus dirs inodes (ok ino) =
    Effect.◌>>=◌ (add_entry ino ent plus dirs)
      λ r. Effect.◌>>◌ (end_round ino r) (next_round loop dirs inodes ino r)

unfoldable pub list_entry :
    (FuseDirsBuilder → List ℕ → M Listing)
    → (dir_inode : ℕ) → (plus : Bool) → FuseDirsBuilder
    → List ℕ
    → StatusOr (Option Dirent)
    → M Listing
unfolding find_or_create_inode list_found Effect.◌>>=◌ Effect.pure
list_entry loop dir_inode plus dirs inodes (err st) = Effect.pure (err st, inodes)
list_entry loop dir_inode plus dirs inodes (ok none) = Effect.pure (ok dirs, inodes)
list_entry loop dir_inode plus dirs inodes (ok (some ent)) =
    Effect.◌>>=◌ (find_or_create_inode dir_inode ent.d_name) (list_found loop ent plus dirs inodes)

-- The loop of ReadDirInternal. The fuel counts the rounds.
unfoldable pub list_entries :
    (fuel : ℕ) → (dir_inode dir : ℕ) → (plus : Bool) → FuseDirsBuilder → List ℕ → M Listing
unfolding readdir list_entry Effect.◌>>=◌
list_entries zero dir_inode dir plus dirs inodes = diverge
list_entries (suc fuel) dir_inode dir plus dirs inodes = Effect.◌>>=◌ (readdir dir) (
    list_entry (λ dirs' inodes'. list_entries fuel dir_inode dir plus dirs' inodes') dir_inode plus
      dirs inodes)

-- Unref of each inode in turn, with failures logged
unfoldable pub unref_all : List ℕ → M (Unit {0})
unfolding unref Effect.pure
unref_all [] = Effect.pure tt
unref_all (ino ∷ inodes) = Effect.◌>>◌ (log_if_error (unref ino 1)) (unref_all inodes)

-- The cleanup takes the references of the kernel back where the listing or the reply fails; then
-- the vector of shared_ptrs is destroyed.
unfoldable pub finish_listing : Listing → E (Unit {0})
unfolding unref_all DirsBuilder.reply
finish_listing (r, inodes) =
    finally (unless_ok (do dirs ← return r; DirsBuilder.reply dirs) (unref_all inodes))
      (unref_all inodes)

-- ReadDirInternal: an entry takes up a byte at least, so `size` entries fit at most.
unfoldable pub read_dir_internal : ℕ → (size off : ℕ) → FileInfo → (plus : Bool) → E (Unit {0})
unfolding get_directory seekdir list_entries finish_listing DirsBuilder.create
read_dir_internal dir_inode size off fi plus = do
  d ← lift (get_directory fi.fh)
  seekdir d.dir off
  listing ← lift (list_entries (suc size) dir_inode d.dir plus (DirsBuilder.create plus size) [])
  finish_listing listing

unfoldable pub read_dir : ℕ → (size off : ℕ) → FileInfo → E (Unit {0})
unfolding read_dir_internal
read_dir ino size off fi = do _ ← lift (get_inode ino); read_dir_internal ino size off fi false

unfoldable pub read_dir_plus : ℕ → (size off : ℕ) → FileInfo → E (Unit {0})
unfolding read_dir_internal
read_dir_plus ino size off fi = do _ ← lift (get_inode ino); read_dir_internal ino size off fi true
