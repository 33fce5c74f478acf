-- ===== src/Fs/Files.antt =====
-- The handlers of pafs/page_align_fs.cc for open files.
use pagealignfs.Prelude.{ℕ, Bool, true, [], ◌==◌, bit_and, bit_or, if◌then◌else◌}
use pagealignfs.Prelude.Int.{to_i32, to_u64}
use pagealignfs.Prelude.Bytes.{Text}
use pagealignfs.System.Types.{FileInfo, Bufvec}
use pagealignfs.System.Constants.{o_rdonly, o_accmode, o_cloexec, o_creat, not_o_nofollow}
use pagealignfs.World.{FileDescriptor}
use pagealignfs.Effect.Fallible.{E, pure, return, lift, attempt, log_if_error, ◌>>=◌, ◌>>◌}
use pagealignfs.Syscalls.Files.{
  open_file, openat, close, dup, fsync, fdatasync, fallocate, copy_file_range, lseek,
}
use pagealignfs.Resource.Descriptor.{with_fd, release}
use pagealignfs.Inode.{get_inode, get_fd, proc_path, notify_poll_event}
use pagealignfs.Request.DirsBuilder.{fuse_buf_copy}
use pagealignfs.Request.Replies.{reply_open, reply_data, reply_write, reply_l_seek}
use pagealignfs.Fs.Entries.{reply_with_create}

-- What Open and Create set in `fi`.
unfoldable pub opened : FileInfo → FileDescriptor → FileInfo
opened fi fd = record fi {
  noflush = bit_and fi.flags o_accmode == o_rdonly;
  parallel_direct_writes = true;
  fh = to_u64 fd.fd;
}

-- The kernel keeps the descriptor in `fh` once it has the reply.
unfoldable pub open_ino : ℕ → FileInfo → E (Unit {0})
unfolding open_file with_fd release proc_path opened reply_open
open_ino ino fi = do
  inode ← lift (get_inode ino)
  path ← lift (proc_path (get_fd inode))
  fd ← open_file path (bit_and (bit_or fi.flags o_cloexec) not_o_nofollow) 0
  with_fd fd (do reply_open (opened fi fd); pure (tt, (release fd).1))

unfoldable pub create : ℕ → Text → (mode : ℕ) → FileInfo → E (Unit {0})
unfolding openat with_fd release opened reply_with_create
create ino name mode fi = do
  inode ← lift (get_inode ino)
  fd ←
      openat (get_fd inode) name
        (bit_and (bit_or (bit_or fi.flags o_cloexec) o_creat) not_o_nofollow) mode
  with_fd fd (do reply_with_create ino name (opened fi fd); pure (tt, (release fd).1))

unfoldable pub release_file : ℕ → FileInfo → E (Unit {0})
unfolding close
release_file ino fi = do _ ← lift (get_inode ino); close (record { fd = to_i32 fi.fh })

-- FUSE_BUFVEC_INIT(size), with FUSE_BUF_IS_FD | FUSE_BUF_FD_SEEK on the open file
abbrev pub bufvec_at : FileInfo → (size off : ℕ) → Bufvec
bufvec_at fi size off = record {
  size = size;
  is_fd_seek = true;
  fd = to_i32 fi.fh;
  pos = off;
  bytes = [];
}

unfoldable pub read : ℕ → (size off : ℕ) → FileInfo → E (Unit {0})
unfolding reply_data
read ino size off fi = do _ ← lift (get_inode ino); reply_data (bufvec_at fi size off) 0

unfoldable pub write_buf : ℕ → Bufvec → (off : ℕ) → FileInfo → E (Unit {0})
unfolding fuse_buf_copy reply_write notify_poll_event
write_buf ino in_buf off fi = do
  _ ← lift (get_inode ino)
  nb ← fuse_buf_copy (bufvec_at fi in_buf.size off) in_buf 0
  ret ← attempt (reply_write nb)
  lift (log_if_error (notify_poll_event ino))
  return ret

-- The descriptor is moved into the close.
unfoldable pub flush : ℕ → FileInfo → E (Unit {0})
unfolding dup close
flush ino fi = do _ ← lift (get_inode ino); fd ← dup (to_i32 fi.fh); close fd

unfoldable pub f_sync : ℕ → (datasync : Bool) → FileInfo → E (Unit {0})
unfolding fsync fdatasync
f_sync ino datasync fi = do
  _ ← lift (get_inode ino)
  if datasync then fdatasync (to_i32 fi.fh) else fsync (to_i32 fi.fh)

unfoldable pub f_allocate : ℕ → (mode offset len : ℕ) → E (Unit {0})
unfolding fallocate
f_allocate ino mode offset len = do
  inode ← lift (get_inode ino)
  fallocate (get_fd inode) mode offset len

unfoldable pub copy_range : ℕ → (off_in : ℕ) → ℕ → (off_out len flags : ℕ) → E (Unit {0})
unfolding copy_file_range reply_write
copy_range ino_in off_in ino_out off_out len flags = do
  inode_in ← lift (get_inode ino_in)
  inode_out ← lift (get_inode ino_out)
  nb ← copy_file_range (get_fd inode_in) off_in (get_fd inode_out) off_out len flags
  reply_write nb

unfoldable pub l_seek : ℕ → (off whence : ℕ) → E (Unit {0})
unfolding lseek reply_l_seek
l_seek ino off whence = do
  inode ← lift (get_inode ino)
  next_off ← lseek (get_fd inode) off whence
  reply_l_seek next_off
