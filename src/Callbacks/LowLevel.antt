-- ===== src/Callbacks/LowLevel.antt =====
-- struct fuse_lowlevel_ops of libfuse, a table of the callbacks, and AsFuseLowLevelOps of
-- pafs/fuse_ops.h, which fills it in for a class. A member that is none is a null pointer.
use pagealignfs.Prelude.{ℕ, Bool, List, Option}
use pagealignfs.Prelude.Bytes.{Text}
use pagealignfs.System.Types.{Stat, FileInfo, Bufvec, Flock, ToSet, ForgetData}
use pagealignfs.World.{FusePollHandle}
use pagealignfs.Effect.{M}
use pagealignfs.Callbacks.Concepts.{FuseConnInfo}
use pagealignfs.Callbacks.Class.{FuseOps}
use pagealignfs.Callbacks.Ops.Entries.{
  get_fuse_init_op, get_fuse_destroy_op, get_fuse_lookup_op, get_fuse_forget_op,
  get_fuse_getattr_op, get_fuse_setattr_op, get_fuse_statfs_op, get_fuse_forget_multi_op,
}
use pagealignfs.Callbacks.Ops.Names.{
  get_fuse_readlink_op, get_fuse_mknod_op, get_fuse_mkdir_op, get_fuse_unlink_op, get_fuse_rmdir_op,
  get_fuse_symlink_op, get_fuse_rename_op, get_fuse_link_op,
}
use pagealignfs.Callbacks.Ops.Files.{
  get_fuse_open_file_op, get_fuse_read_op, get_fuse_write_op, get_fuse_flush_op,
  get_fuse_release_op, get_fuse_fsync_op, get_fuse_create_op, get_fuse_write_buf_op,
  get_fuse_fallocate_op, get_fuse_copy_file_range_op, get_fuse_lseek_op,
}
use pagealignfs.Callbacks.Ops.Streams.{
  get_fuse_opendir_op, get_fuse_readdir_op, get_fuse_releasedir_op, get_fuse_fsyncdir_op,
  get_fuse_readdirplus_op,
}
use pagealignfs.Callbacks.Ops.XAttrs.{
  get_fuse_setxattr_op, get_fuse_getxattr_op, get_fuse_listxattr_op, get_fuse_removexattr_op,
  get_fuse_access_op,
}
use pagealignfs.Callbacks.Ops.Locks.{
  get_fuse_getlk_op, get_fuse_setlk_op, get_fuse_bmap_op, get_fuse_ioctl_op, get_fuse_poll_op,
  get_fuse_retrieve_reply_op, get_fuse_flock_op,
}

pub record FuseLowlevelOps : Type 0 where
  pub init : Option ((conn : Option FuseConnInfo) → M (Unit {0}))
  pub destroy : Option (M (Unit {0}))
  pub lookup : Option (ℕ → (parent : ℕ) → (name : Text) → M (Unit {0}))
  pub forget : Option (ℕ → (ino : ℕ) → (nlookup : ℕ) → M (Unit {0}))
  pub getattr : Option (ℕ → (ino : ℕ) → M (Unit {0}))
  pub setattr :
      Option
        (ℕ → (ino : ℕ) → (attr : Stat) → (to_set : ToSet) → (fi : Option FileInfo) → M (Unit {0}))
  pub readlink : Option (ℕ → (ino : ℕ) → M (Unit {0}))
  pub mknod : Option (ℕ → (parent : ℕ) → (name : Text) → (mode : ℕ) → (rdev : ℕ) → M (Unit {0}))
  pub mkdir : Option (ℕ → (parent : ℕ) → (name : Text) → (mode : ℕ) → M (Unit {0}))
  pub unlink : Option (ℕ → (parent : ℕ) → (name : Text) → M (Unit {0}))
  pub rmdir : Option (ℕ → (parent : ℕ) → (name : Text) → M (Unit {0}))
  pub symlink : Option (ℕ → (target : Text) → (parent : ℕ) → (name : Text) → M (Unit {0}))
  pub rename : Option (
      ℕ
      → (parent : ℕ) → (name : Text) → (newparent : ℕ) → (newname : Text) → (flags : ℕ)
      → M (Unit {0}))
  pub link : Option (ℕ → (ino : ℕ) → (parent : ℕ) → (newname : Text) → M (Unit {0}))
  pub open_file : Option (ℕ → (ino : ℕ) → (fi : Option FileInfo) → M (Unit {0}))
  pub read : Option (ℕ → (ino : ℕ) → (size : ℕ) → (off : ℕ) → (fi : Option FileInfo) → M (Unit {0}))
  pub write :
      Option (ℕ → (ino : ℕ) → (buf : Text) → (off : ℕ) → (fi : Option FileInfo) → M (Unit {0}))
  pub flush : Option (ℕ → (ino : ℕ) → (fi : Option FileInfo) → M (Unit {0}))
  pub release : Option (ℕ → (ino : ℕ) → (fi : Option FileInfo) → M (Unit {0}))
  pub fsync : Option (ℕ → (ino : ℕ) → (datasync : Bool) → (fi : Option FileInfo) → M (Unit {0}))
  pub opendir : Option (ℕ → (ino : ℕ) → (fi : Option FileInfo) → M (Unit {0}))
  pub readdir :
      Option (ℕ → (ino : ℕ) → (size : ℕ) → (off : ℕ) → (fi : Option FileInfo) → M (Unit {0}))
  pub releasedir : Option (ℕ → (ino : ℕ) → (fi : Option FileInfo) → M (Unit {0}))
  pub fsyncdir : Option (ℕ → (ino : ℕ) → (datasync : Bool) → (fi : Option FileInfo) → M (Unit {0}))
  pub statfs : Option (ℕ → (ino : ℕ) → M (Unit {0}))
  pub setxattr :
      Option (ℕ → (ino : ℕ) → (name : Text) → (value : Text) → (flags : ℕ) → M (Unit {0}))
  pub getxattr : Option (ℕ → (ino : ℕ) → (name : Text) → (size : ℕ) → M (Unit {0}))
  pub listxattr : Option (ℕ → (ino : ℕ) → (size : ℕ) → M (Unit {0}))
  pub removexattr : Option (ℕ → (ino : ℕ) → (name : Text) → M (Unit {0}))
  pub access : Option (ℕ → (ino : ℕ) → (mask : ℕ) → M (Unit {0}))
  pub create :
      Option (ℕ → (ino : ℕ) → (name : Text) → (mode : ℕ) → (fi : Option FileInfo) → M (Unit {0}))
  pub getlk : Option (ℕ → (ino : ℕ) → (fi : Option FileInfo) → (lock : Flock) → M (Unit {0}))
  pub setlk :
      Option
        (ℕ → (ino : ℕ) → (fi : Option FileInfo) → (lock : Flock) → (sleep : Bool) → M (Unit {0}))
  pub bmap : Option (ℕ → (ino : ℕ) → (blocksize : ℕ) → (idx : ℕ) → M (Unit {0}))
  pub ioctl : Option (
      ℕ
      → (ino : ℕ) → (cmd : ℕ) → (arg : ℕ) → (fi : Option FileInfo) → (flags : ℕ) → (in_buf : Text)
      → (out_bufsz : ℕ) → M (Unit {0}))
  pub poll : Option (ℕ → (ino : ℕ) → (fi : Option FileInfo) → (ph : FusePollHandle) → M (Unit {0}))
  pub write_buf :
      Option (ℕ → (ino : ℕ) → (in_buf : Bufvec) → (off : ℕ) → (fi : FileInfo) → M (Unit {0}))
  pub retrieve_reply :
      Option (ℕ → (cookie : ℕ) → (ino : ℕ) → (offset : ℕ) → (bufv : Bufvec) → M (Unit {0}))
  pub forget_multi : Option (ℕ → (forgets : List ForgetData) → M (Unit {0}))
  pub flock : Option (ℕ → (ino : ℕ) → (fi : Option FileInfo) → (op : ℕ) → M (Unit {0}))
  pub fallocate : Option (
      ℕ → (ino : ℕ) → (mode : ℕ) → (offset : ℕ) → (len : ℕ) → (fi : Option FileInfo) → M (Unit {0}))
  pub readdirplus :
      Option (ℕ → (ino : ℕ) → (size : ℕ) → (off : ℕ) → (fi : Option FileInfo) → M (Unit {0}))
  pub copy_file_range : Option (
      ℕ
      → (ino_in : ℕ) → (off_in : ℕ) → (fi_in : Option FileInfo) → (ino_out : ℕ) → (off_out : ℕ)
      → (fi_out : Option FileInfo) → (len : ℕ) → (flags : ℕ) → M (Unit {0}))
  pub lseek :
      Option (ℕ → (ino : ℕ) → (off : ℕ) → (whence : ℕ) → (fi : Option FileInfo) → M (Unit {0}))

abbrev pub as_fuse_low_level_ops : FuseOps → FuseLowlevelOps
as_fuse_low_level_ops t = record {
  init = get_fuse_init_op t.init;
  destroy = get_fuse_destroy_op t.destroy;
  lookup = get_fuse_lookup_op t.lookup;
  forget = get_fuse_forget_op t.forget;
  getattr = get_fuse_getattr_op t.getattr;
  setattr = get_fuse_setattr_op t.setattr;
  readlink = get_fuse_readlink_op t.readlink;
  mknod = get_fuse_mknod_op t.mknod;
  mkdir = get_fuse_mkdir_op t.mkdir;
  unlink = get_fuse_unlink_op t.unlink;
  rmdir = get_fuse_rmdir_op t.rmdir;
  symlink = get_fuse_symlink_op t.symlink;
  rename = get_fuse_rename_op t.rename;
  link = get_fuse_link_op t.link;
  open_file = get_fuse_open_file_op t.open_file;
  read = get_fuse_read_op t.read;
  write = get_fuse_write_op t.write;
  flush = get_fuse_flush_op t.flush;
  release = get_fuse_release_op t.release;
  fsync = get_fuse_fsync_op t.fsync;
  opendir = get_fuse_opendir_op t.opendir;
  readdir = get_fuse_readdir_op t.readdir;
  releasedir = get_fuse_releasedir_op t.releasedir;
  fsyncdir = get_fuse_fsyncdir_op t.fsyncdir;
  statfs = get_fuse_statfs_op t.statfs;
  setxattr = get_fuse_setxattr_op t.setxattr;
  getxattr = get_fuse_getxattr_op t.getxattr;
  listxattr = get_fuse_listxattr_op t.listxattr;
  removexattr = get_fuse_removexattr_op t.removexattr;
  access = get_fuse_access_op t.access;
  create = get_fuse_create_op t.create;
  getlk = get_fuse_getlk_op t.getlk;
  setlk = get_fuse_setlk_op t.setlk;
  bmap = get_fuse_bmap_op t.bmap;
  ioctl = get_fuse_ioctl_op t.ioctl;
  poll = get_fuse_poll_op t.poll;
  write_buf = get_fuse_write_buf_op t.write_buf;
  retrieve_reply = get_fuse_retrieve_reply_op t.retrieve_reply;
  forget_multi = get_fuse_forget_multi_op t.forget_multi;
  flock = get_fuse_flock_op t.flock;
  fallocate = get_fuse_fallocate_op t.fallocate;
  readdirplus = get_fuse_readdirplus_op t.readdirplus;
  copy_file_range = get_fuse_copy_file_range_op t.copy_file_range;
  lseek = get_fuse_lseek_op t.lseek;
}
