-- ===== src/Callbacks/Table.antt =====
-- What libfuse may ask of the members of fuse_lowlevel_ops that take a request.
use pagealignfs.Prelude.{ℕ, Bool, List, Option}
use pagealignfs.Prelude.Bytes.{Text}
use pagealignfs.System.Types.{Stat, FileInfo, Bufvec, Flock, ToSet, ForgetData}
use pagealignfs.World.{FusePollHandle}

-- A callback of the table with its arguments, but for the request.
pub data Callback : Type 0 where
  lookup : (parent : ℕ) → (name : Text) → Callback
  forget : (ino : ℕ) → (nlookup : ℕ) → Callback
  getattr : (ino : ℕ) → Callback
  setattr : (ino : ℕ) → (attr : Stat) → (to_set : ToSet) → (fi : Option FileInfo) → Callback
  readlink : (ino : ℕ) → Callback
  mknod : (parent : ℕ) → (name : Text) → (mode : ℕ) → (rdev : ℕ) → Callback
  mkdir : (parent : ℕ) → (name : Text) → (mode : ℕ) → Callback
  unlink : (parent : ℕ) → (name : Text) → Callback
  rmdir : (parent : ℕ) → (name : Text) → Callback
  symlink : (target : Text) → (parent : ℕ) → (name : Text) → Callback
  rename :
      (parent : ℕ) → (name : Text) → (newparent : ℕ) → (newname : Text) → (flags : ℕ) → Callback
  link : (ino : ℕ) → (parent : ℕ) → (newname : Text) → Callback
  open_file : (ino : ℕ) → (fi : Option FileInfo) → Callback
  read : (ino : ℕ) → (size : ℕ) → (off : ℕ) → (fi : Option FileInfo) → Callback
  write : (ino : ℕ) → (buf : Text) → (off : ℕ) → (fi : Option FileInfo) → Callback
  flush : (ino : ℕ) → (fi : Option FileInfo) → Callback
  release : (ino : ℕ) → (fi : Option FileInfo) → Callback
  fsync : (ino : ℕ) → (datasync : Bool) → (fi : Option FileInfo) → Callback
  opendir : (ino : ℕ) → (fi : Option FileInfo) → Callback
  readdir : (ino : ℕ) → (size : ℕ) → (off : ℕ) → (fi : Option FileInfo) → Callback
  releasedir : (ino : ℕ) → (fi : Option FileInfo) → Callback
  fsyncdir : (ino : ℕ) → (datasync : Bool) → (fi : Option FileInfo) → Callback
  statfs : (ino : ℕ) → Callback
  setxattr : (ino : ℕ) → (name : Text) → (value : Text) → (flags : ℕ) → Callback
  getxattr : (ino : ℕ) → (name : Text) → (size : ℕ) → Callback
  listxattr : (ino : ℕ) → (size : ℕ) → Callback
  removexattr : (ino : ℕ) → (name : Text) → Callback
  access : (ino : ℕ) → (mask : ℕ) → Callback
  create : (ino : ℕ) → (name : Text) → (mode : ℕ) → (fi : Option FileInfo) → Callback
  getlk : (ino : ℕ) → (fi : Option FileInfo) → (lock : Flock) → Callback
  setlk : (ino : ℕ) → (fi : Option FileInfo) → (lock : Flock) → (sleep : Bool) → Callback
  bmap : (ino : ℕ) → (blocksize : ℕ) → (idx : ℕ) → Callback
  ioctl :
      (ino : ℕ)
      → (cmd : ℕ) → (arg : ℕ) → (fi : Option FileInfo) → (flags : ℕ) → (in_buf : Text)
      → (out_bufsz : ℕ) → Callback
  poll : (ino : ℕ) → (fi : Option FileInfo) → (ph : FusePollHandle) → Callback
  write_buf : (ino : ℕ) → (in_buf : Bufvec) → (off : ℕ) → (fi : FileInfo) → Callback
  retrieve_reply : (cookie : ℕ) → (ino : ℕ) → (offset : ℕ) → (bufv : Bufvec) → Callback
  forget_multi : (forgets : List ForgetData) → Callback
  flock : (ino : ℕ) → (fi : Option FileInfo) → (op : ℕ) → Callback
  fallocate : (ino : ℕ) → (mode : ℕ) → (offset : ℕ) → (len : ℕ) → (fi : Option FileInfo) → Callback
  readdirplus : (ino : ℕ) → (size : ℕ) → (off : ℕ) → (fi : Option FileInfo) → Callback
  copy_file_range :
      (ino_in : ℕ)
      → (off_in : ℕ) → (fi_in : Option FileInfo) → (ino_out : ℕ) → (off_out : ℕ)
      → (fi_out : Option FileInfo) → (len : ℕ) → (flags : ℕ) → Callback
  lseek : (ino : ℕ) → (off : ℕ) → (whence : ℕ) → (fi : Option FileInfo) → Callback
