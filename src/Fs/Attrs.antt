-- ===== src/Fs/Attrs.antt =====
-- The handlers of pafs/page_align_fs.cc for attributes.
use pagealignfs.Prelude.{ℕ, Bool, [], ◌||◌, ◌-◌, ◌^◌, bit_or, if◌then◌else◌}
use pagealignfs.Prelude.Int.{ℤ, pos, eqb_ℤ, to_i32}
use pagealignfs.System.Types.{Stat, ToSet, FileInfo}
use pagealignfs.System.Constants.{
  o_rdonly, o_cloexec, at_empty_path, at_symlink_nofollow, utime_now, utime_omit,
}
use pagealignfs.Effect.Fallible.{E, pure, lift, ◌>>=◌, ◌>>◌}
use pagealignfs.Syscalls.Files.{open_file, fchmod, fchownat, ftruncate, futimens, fstatvfs}
use pagealignfs.Syscalls.Tree.{access}
use pagealignfs.Resource.Descriptor.{with_fd}
use pagealignfs.Inode.{get_inode, get_fd, proc_path}
use pagealignfs.Request.Replies.{reply_stat_fs}
use pagealignfs.Fs.Entries.{reply_with_attrs}

unfoldable pub get_attr : ℕ → E (Unit {0})
unfolding reply_with_attrs
get_attr ino = do _ ← lift (get_inode ino); reply_with_attrs ino

-- static_cast<uid_t>(-1)
abbrev pub no_id : ℕ
no_id = 2 ^ 32 - 1

unfoldable pub set_mode : ℤ → Stat → ToSet → E (Unit {0})
unfolding fchmod
set_mode fd attr to_set = if to_set.mode then fchmod fd attr.st_mode else pure tt

unfoldable pub set_owner : ℤ → Stat → ToSet → E (Unit {0})
unfolding fchownat
set_owner fd attr to_set =
    if to_set.uid || to_set.gid
    then fchownat fd [] (if to_set.uid then attr.st_uid else no_id)
        (if to_set.gid then attr.st_gid else no_id) (bit_or at_empty_path at_symlink_nofollow)
    else pure tt

unfoldable pub set_size : ℤ → Stat → ToSet → E (Unit {0})
unfolding ftruncate
set_size fd attr to_set = if to_set.size then ftruncate fd attr.st_size else pure tt

-- One entry of `tv`: the time now, the given time, or none.
abbrev pub timespec : (now given : Bool) → ℕ × ℤ → ℕ × ℤ
timespec now given t = if now then (0, utime_now) else if given then t else (0, utime_omit)

unfoldable pub set_times : ℤ → Stat → ToSet → E (Unit {0})
unfolding futimens
set_times fd attr to_set =
    if to_set.atime || to_set.mtime
    then futimens fd (timespec to_set.atime_now to_set.atime attr.st_atim)
        (timespec to_set.mtime_now to_set.mtime attr.st_mtim)
    else pure tt

-- The steps of SetAttr on an open descriptor, and the reply.
unfoldable pub set_attr_on : ℤ → ℕ → Stat → ToSet → E (Unit {0})
unfolding set_mode set_owner set_size set_times reply_with_attrs
set_attr_on fd ino attr to_set = do
  set_mode fd attr to_set
  set_owner fd attr to_set
  set_size fd attr to_set
  set_times fd attr to_set
  reply_with_attrs ino

unfoldable pub set_attr : ℕ → Stat → ToSet → FileInfo → E (Unit {0})
unfolding set_attr_on open_file with_fd proc_path
set_attr ino attr to_set fi = do
  inode ← lift (get_inode ino)
  if eqb_ℤ (to_i32 fi.fh) (pos 0)
      then (do
        path ← lift (proc_path (get_fd inode))
        myfd ← open_file path (bit_or o_rdonly o_cloexec) 0
        with_fd myfd (do set_attr_on myfd.fd ino attr to_set; pure (tt, myfd)))
      else set_attr_on (to_i32 fi.fh) ino attr to_set

unfoldable pub stat_fs : ℕ → E (Unit {0})
unfolding fstatvfs reply_stat_fs
stat_fs ino = do inode ← lift (get_inode ino); stbuf ← fstatvfs (get_fd inode); reply_stat_fs stbuf

unfoldable pub access_file : ℕ → (mask : ℕ) → E (Unit {0})
unfolding access proc_path
access_file ino mask = do
  inode ← lift (get_inode ino)
  path ← lift (proc_path (get_fd inode))
  access path mask
