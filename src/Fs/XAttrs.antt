-- ===== src/Fs/XAttrs.antt =====
-- The handlers of pafs/page_align_fs.cc for extended attributes.
use pagealignfs.Prelude.{ℕ, length, leb, resize, if◌then◌else◌}
use pagealignfs.Prelude.Bytes.{Text}
use pagealignfs.Effect.{abort}
use pagealignfs.Effect.Fallible.{E, lift, ◌>>=◌}
use pagealignfs.Syscalls.Tree.{setxattr, getxattr, listxattr, removexattr}
use pagealignfs.Inode.{get_inode, get_fd, proc_path}
use pagealignfs.Request.Replies.{reply_buf}

unfoldable pub set_x_attr : ℕ → Text → Text → (flags : ℕ) → E (Unit {0})
unfolding setxattr proc_path
set_x_attr ino name value flags = do
  inode ← lift (get_inode ino)
  path ← lift (proc_path (get_fd inode))
  setxattr path name value flags

unfoldable pub get_x_attr : ℕ → Text → (size : ℕ) → E (Unit {0})
unfolding getxattr proc_path reply_buf
get_x_attr ino name size = do
  inode ← lift (get_inode ino)
  path ← lift (proc_path (get_fd inode))
  buf ← getxattr path name size
  if leb (length buf) size then reply_buf buf else lift abort

-- The CHECK compares the buffer's own size; the buffer is then cut or padded to `nb` bytes.
unfoldable pub list_x_attr : ℕ → (size : ℕ) → E (Unit {0})
unfolding listxattr proc_path reply_buf
list_x_attr ino size = do
  inode ← lift (get_inode ino)
  path ← lift (proc_path (get_fd inode))
  (nb, bytes) ← listxattr path size
  let buf = resize size 0 bytes
  if leb (length buf) size then reply_buf (resize nb 0 buf) else lift abort

unfoldable pub remove_x_attr : ℕ → Text → E (Unit {0})
unfolding removexattr proc_path
remove_x_attr ino name = do
  inode ← lift (get_inode ino)
  path ← lift (proc_path (get_fd inode))
  removexattr path name
