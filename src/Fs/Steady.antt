-- ===== src/Fs/Steady.antt =====
-- The handlers of pafs/page_align_fs.cc that take inodes and only read the state, and how they end.
use pagealignfs.Prelude.{ℕ, Bool, true, ◌≡◌, arith, leb, length, resize, length-resize}
use pagealignfs.Prelude.Int.{ℤ}
use pagealignfs.Prelude.Bytes.{Text}
use pagealignfs.System.Types.{Stat, FileInfo, ToSet, Bufvec, Flock}
use pagealignfs.World.{World}
use pagealignfs.Effect.Ensures.{IsTraceless}
use pagealignfs.Effect.Proper.{
  Proper, Stays, Ensures-Stays, Stays-log_if_error, Proper-attempt, proper_rules,
}
use pagealignfs.InodeCache.Reach.{IsLive, get_inode-IsLive}
use pagealignfs.Inode
use pagealignfs.Inode.{get_inode, proc_path, stat_fd, notify_poll_event}
use pagealignfs.Resource.PollHandle
use pagealignfs.Request.Kept.{IsRequestless}
use pagealignfs.Request.DirsBuilder.{fuse_buf_copy}
use pagealignfs.Request.Replies.{
  reply_attr, reply_buf, reply_open, reply_data, reply_read_link, reply_write, reply_stat_fs,
  reply_lock, reply_l_seek,
}
use pagealignfs.Request.Proper.{
  errno_result-Proper, errno_fail-Proper, check-Proper, checked_value-Proper, with_fd-Proper,
  send-Proper,
}
use pagealignfs.Syscalls.Files.{
  open_file, close, dup, fsync, fdatasync, fchmod, fchownat, ftruncate, futimens, flock, fallocate,
  copy_file_range, lseek, fcntl, fstatvfs,
}
use pagealignfs.Syscalls.Tree.{
  fstatat, readlinkat, unlinkat, renameat2, setxattr, listxattr, removexattr, access,
}
use pagealignfs.Fs.Entries.{reply_with_attrs}
use pagealignfs.Fs.Names.{read_link, unlink, rmdir, rename}
use pagealignfs.Fs.Attrs.{
  get_attr, set_mode, set_owner, set_size, set_times, set_attr_on, set_attr, stat_fs, access_file,
}
use pagealignfs.Fs.Files
use pagealignfs.Fs.Files.{
  open_ino, release_file, write_buf, flush, f_sync, f_allocate, copy_range, l_seek,
}
use pagealignfs.Fs.Locks.{get_lk, set_lk, f_lock}
use pagealignfs.Fs.XAttrs.{set_x_attr, list_x_attr, remove_x_attr}

-- In the states of P the number leads to an inode.
abbrev pub Lives : (World → Type 0) → ℕ → Type 0
Lives P ino = (w : World) → P w → IsLive ino w

get_inode-Stays : {P : World → Type 0} (ino : ℕ) → Lives P ino → Stays P (get_inode ino)
get_inode-Stays ino alive = Ensures-Stays _ (get_inode-IsLive ino alive)

ruleset steady_rules = (
  proper_rules, errno_result-Proper, errno_fail-Proper, check-Proper, checked_value-Proper,
  with_fd-Proper, send-Proper, get_inode-Stays, Stays-log_if_error, Proper-attempt,
)

module _ {P : World → Type 0} (traceless : IsTraceless P) (requestless : IsRequestless P) where
  pub get_attr-Proper : (ino : ℕ) → Lives P ino → Proper P (get_attr ino)
  unfolding get_attr reply_with_attrs Inode.stat reply_attr stat_fd fstatat
  get_attr-Proper ino alive = search (steady_rules, traceless, requestless, alive) depth 14

  pub read_link-Proper : (ino : ℕ) → Lives P ino → Proper P (read_link ino)
  unfolding read_link readlinkat reply_read_link
  read_link-Proper ino alive = search (steady_rules, traceless, requestless, alive) depth 14

  pub unlink-Proper : (ino : ℕ) (name : Text) → Lives P ino → Proper P (unlink ino name)
  unfolding unlink unlinkat
  unlink-Proper ino name alive = search (steady_rules, traceless, requestless, alive) depth 14

  pub rmdir-Proper : (ino : ℕ) (name : Text) → Lives P ino → Proper P (rmdir ino name)
  unfolding rmdir unlinkat
  rmdir-Proper ino name alive = search (steady_rules, traceless, requestless, alive) depth 14

  pub rename-Proper :
      (parent : ℕ) (name : Text) (newparent : ℕ) (newname : Text) (flags : ℕ)
      → Lives P parent
      → Lives P newparent
      → Proper P (rename parent name newparent newname flags)
  unfolding rename renameat2
  rename-Proper parent name newparent newname flags from to =
      search (steady_rules, traceless, requestless, from, to) depth 14

  pub open_ino-Proper : (ino : ℕ) (fi : FileInfo) → Lives P ino → Proper P (open_ino ino fi)
  unfolding open_ino proc_path open_file reply_open
  open_ino-Proper ino fi alive = search (steady_rules, traceless, requestless, alive) depth 14

  pub release_file-Proper : (ino : ℕ) (fi : FileInfo) → Lives P ino → Proper P (release_file ino fi)
  unfolding release_file close
  release_file-Proper ino fi alive = search (steady_rules, traceless, requestless, alive) depth 14

  pub read-Proper :
      (ino : ℕ) (size : ℕ) (off : ℕ) (fi : FileInfo)
      → Lives P ino
      → Proper P (Files.read ino size off fi)
  unfolding Files.read reply_data
  read-Proper ino size off fi alive = search (steady_rules, traceless, requestless, alive) depth 14

  pub write_buf-Proper :
      (ino : ℕ) (in_buf : Bufvec) (off : ℕ) (fi : FileInfo)
      → Lives P ino
      → Proper P (write_buf ino in_buf off fi)
  unfolding write_buf fuse_buf_copy reply_write notify_poll_event PollHandle.notify
  write_buf-Proper ino in_buf off fi alive =
      search (steady_rules, traceless, requestless, alive) depth 14

  pub flush-Proper : (ino : ℕ) (fi : FileInfo) → Lives P ino → Proper P (flush ino fi)
  unfolding flush dup close
  flush-Proper ino fi alive = search (steady_rules, traceless, requestless, alive) depth 14

  pub f_sync-Proper :
      (ino : ℕ) (datasync : Bool) (fi : FileInfo) → Lives P ino → Proper P (f_sync ino datasync fi)
  unfolding f_sync fsync fdatasync
  f_sync-Proper ino datasync fi alive =
      search (steady_rules, traceless, requestless, alive) depth 14

  pub f_allocate-Proper :
      (ino : ℕ) (mode : ℕ) (offset : ℕ) (len : ℕ)
      → Lives P ino
      → Proper P (f_allocate ino mode offset len)
  unfolding f_allocate fallocate
  f_allocate-Proper ino mode offset len alive =
      search (steady_rules, traceless, requestless, alive) depth 14

  pub copy_range-Proper :
      (ino_in : ℕ) (off_in : ℕ) (ino_out : ℕ) (off_out : ℕ) (len : ℕ) (flags : ℕ)
      → Lives P ino_in
      → Lives P ino_out
      → Proper P (copy_range ino_in off_in ino_out off_out len flags)
  unfolding copy_range copy_file_range reply_write
  copy_range-Proper ino_in off_in ino_out off_out len flags from to =
      search (steady_rules, traceless, requestless, from, to) depth 14

  pub l_seek-Proper :
      (ino : ℕ) (off : ℕ) (whence : ℕ) → Lives P ino → Proper P (l_seek ino off whence)
  unfolding l_seek lseek reply_l_seek
  l_seek-Proper ino off whence alive = search (steady_rules, traceless, requestless, alive) depth 14

  pub set_attr_on-Proper :
      (fd : ℤ) (ino : ℕ) (attr : Stat) (to_set : ToSet)
      → Lives P ino
      → Proper P (set_attr_on fd ino attr to_set)
  unfolding set_attr_on set_mode set_owner set_size set_times fchmod fchownat ftruncate futimens
      reply_with_attrs Inode.stat reply_attr stat_fd fstatat
  set_attr_on-Proper fd ino attr to_set alive =
      search (steady_rules, traceless, requestless, alive) depth 14

  pub set_attr-Proper :
      (ino : ℕ) (attr : Stat) (to_set : ToSet) (fi : FileInfo)
      → Lives P ino
      → Proper P (set_attr ino attr to_set fi)
  unfolding set_attr proc_path open_file
  set_attr-Proper ino attr to_set fi alive =
      search (steady_rules, set_attr_on-Proper, traceless, requestless, alive) depth 14

  pub stat_fs-Proper : (ino : ℕ) → Lives P ino → Proper P (stat_fs ino)
  unfolding stat_fs fstatvfs reply_stat_fs
  stat_fs-Proper ino alive = search (steady_rules, traceless, requestless, alive) depth 14

  pub access_file-Proper : (ino : ℕ) (mask : ℕ) → Lives P ino → Proper P (access_file ino mask)
  unfolding access_file proc_path access
  access_file-Proper ino mask alive = search (steady_rules, traceless, requestless, alive) depth 14

  pub get_lk-Proper : (ino : ℕ) (lock : Flock) → Lives P ino → Proper P (get_lk ino lock)
  unfolding get_lk fcntl reply_lock
  get_lk-Proper ino lock alive = search (steady_rules, traceless, requestless, alive) depth 14

  pub set_lk-Proper :
      (ino : ℕ) (lock : Flock) (sleep : Bool) → Lives P ino → Proper P (set_lk ino lock sleep)
  unfolding set_lk fcntl
  set_lk-Proper ino lock sleep alive = search (steady_rules, traceless, requestless, alive) depth 14

  pub f_lock-Proper : (ino : ℕ) (op : ℕ) → Lives P ino → Proper P (f_lock ino op)
  unfolding f_lock flock
  f_lock-Proper ino op alive = search (steady_rules, traceless, requestless, alive) depth 14

  pub set_x_attr-Proper :
      (ino : ℕ) (name : Text) (value : Text) (flags : ℕ)
      → Lives P ino
      → Proper P (set_x_attr ino name value flags)
  unfolding set_x_attr proc_path setxattr
  set_x_attr-Proper ino name value flags alive =
      search (steady_rules, traceless, requestless, alive) depth 14

  pub remove_x_attr-Proper :
      (ino : ℕ) (name : Text) → Lives P ino → Proper P (remove_x_attr ino name)
  unfolding remove_x_attr proc_path removexattr
  remove_x_attr-Proper ino name alive =
      search (steady_rules, traceless, requestless, alive) depth 14

  -- The buffer has the size that was asked for, so its CHECK holds.
  pub list_x_attr-Proper : (ino size : ℕ) → Lives P ino → Proper P (list_x_attr ino size)
  unfolding list_x_attr proc_path listxattr reply_buf
  list_x_attr-Proper ino size alive =
      let fits : (bytes : Text) → leb (length (resize size 0 bytes)) size ≡ true =
        λ bytes. rw (length-resize size 0 bytes) (ground arith) in
      search (steady_rules, fits, traceless, requestless, alive) depth 14

pub ruleset handler_proper = (
  get_attr-Proper, read_link-Proper, unlink-Proper, rmdir-Proper, rename-Proper, open_ino-Proper,
  release_file-Proper, read-Proper, write_buf-Proper, flush-Proper, f_sync-Proper,
  f_allocate-Proper, copy_range-Proper, l_seek-Proper, set_attr_on-Proper, set_attr-Proper,
  stat_fs-Proper, access_file-Proper, get_lk-Proper, set_lk-Proper, f_lock-Proper,
  set_x_attr-Proper, remove_x_attr-Proper, list_x_attr-Proper,
)
