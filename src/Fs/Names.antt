-- ===== src/Fs/Names.antt =====
-- The handlers of pafs/page_align_fs.cc that change or read names.
use pagealignfs.Prelude.{ℕ, [], resize, if◌then◌else◌, ◌+◌}
use pagealignfs.Prelude.Int.{pos, eqb_ℤ, to_u64}
use pagealignfs.Prelude.Bytes.{Text, text}
use pagealignfs.System.Constants.{at_removedir, at_empty_path, enametoolong, path_max}
use pagealignfs.Effect.Fallible.{E, lift, ◌>>=◌, ◌>>◌}
use pagealignfs.Syscalls.Errors.{errno_result}
use pagealignfs.Syscalls.Tree.{readlinkat, mknodat, mkdirat, unlinkat, symlinkat, renameat2, linkat}
use pagealignfs.Inode.{get_inode, get_fd}
use pagealignfs.Request.Replies.{reply_read_link}
use pagealignfs.Fs.Entries.{reply_with_lookup}

unfoldable pub read_link : ℕ → E (Unit {0})
unfolding readlinkat errno_result reply_read_link
read_link ino = do
  inode ← lift (get_inode ino)
  (nb, bytes) ← readlinkat (get_fd inode) [] (path_max + 1)
  if eqb_ℤ nb (pos (path_max + 1))
      then errno_result enametoolong (text "Path too long")
      else reply_read_link (resize (to_u64 nb) 0 bytes)

unfoldable pub mknod : (parent : ℕ) → Text → (mode rdev : ℕ) → E (Unit {0})
unfolding mknodat reply_with_lookup
mknod parent name mode rdev = do
  parent_ino ← lift (get_inode parent)
  mknodat (get_fd parent_ino) name mode rdev
  reply_with_lookup parent name

unfoldable pub mkdir : (parent : ℕ) → Text → (mode : ℕ) → E (Unit {0})
unfolding mkdirat reply_with_lookup
mkdir parent name mode = do
  parent_ino ← lift (get_inode parent)
  mkdirat (get_fd parent_ino) name mode
  reply_with_lookup parent name

unfoldable pub unlink : ℕ → Text → E (Unit {0})
unfolding unlinkat
unlink ino name = do inode ← lift (get_inode ino); unlinkat (get_fd inode) name 0

unfoldable pub rmdir : ℕ → Text → E (Unit {0})
unfolding unlinkat
rmdir ino name = do inode ← lift (get_inode ino); unlinkat (get_fd inode) name at_removedir

unfoldable pub symlink : Text → (parent : ℕ) → Text → E (Unit {0})
unfolding symlinkat reply_with_lookup
symlink link parent name = do
  parent_ino ← lift (get_inode parent)
  symlinkat link (get_fd parent_ino) name
  reply_with_lookup parent name

unfoldable pub rename : (parent : ℕ) → Text → (newparent : ℕ) → Text → (flags : ℕ) → E (Unit {0})
unfolding renameat2
rename parent name newparent newname flags = do
  parent_ino ← lift (get_inode parent)
  newparent_ino ← lift (get_inode newparent)
  renameat2 (get_fd parent_ino) name (get_fd newparent_ino) newname flags

unfoldable pub link : ℕ → (newparent : ℕ) → Text → E (Unit {0})
unfolding linkat reply_with_lookup
link ino newparent newname = do
  inode ← lift (get_inode ino)
  newparent_ino ← lift (get_inode newparent)
  linkat (get_fd inode) [] (get_fd newparent_ino) newname at_empty_path
  reply_with_lookup newparent newname
