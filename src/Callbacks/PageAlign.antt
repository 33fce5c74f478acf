-- ===== src/Callbacks/PageAlign.antt =====
-- PageAlignFS and the interface of Handlers: its operations (Fs/Class) by what they are made of.
use pagealignfs.World.{World}
use pagealignfs.Fs.Class.{page_align_fs}
use pagealignfs.Fs.Keeps.{StateKeeps}
use pagealignfs.Fs.Keeps.Entries.{entry_keeps}
use pagealignfs.Fs.Keeps.Names.{name_keeps}
use pagealignfs.Fs.Keeps.Attrs.{attr_keeps}
use pagealignfs.Fs.Keeps.Files.{file_handler_keeps}
use pagealignfs.Fs.Keeps.Locks.{lock_keeps}
use pagealignfs.Fs.Keeps.XAttrs.{x_attr_keeps}
use pagealignfs.Fs.Keeps.Streams.{stream_handler_keeps}
use pagealignfs.Callbacks.Handlers.{HandlersKeep}

ruleset handler_keeps = (
  entry_keeps, name_keeps, attr_keeps, file_handler_keeps, lock_keeps, x_attr_keeps,
  stream_handler_keeps,
)

pub page_align_fs-HandlersKeep : {R : World → Type 0} → StateKeeps R → HandlersKeep R page_align_fs
page_align_fs-HandlersKeep k = record {
  lookup = λ parent name. search (handler_keeps, k);
  forget = λ ino nlookup. search (handler_keeps, k);
  getattr = λ ino. search (handler_keeps, k);
  setattr = λ ino attr to_set fi. search (handler_keeps, k);
  readlink = λ ino. search (handler_keeps, k);
  mknod = λ parent name mode rdev. search (handler_keeps, k);
  mkdir = λ parent name mode. search (handler_keeps, k);
  unlink = λ parent name. search (handler_keeps, k);
  rmdir = λ parent name. search (handler_keeps, k);
  symlink = λ target parent name. search (handler_keeps, k);
  rename = λ parent name newparent newname flags. search (handler_keeps, k);
  link = λ ino parent newname. search (handler_keeps, k);
  open_file = λ ino fi. search (handler_keeps, k);
  read = λ ino size off fi. search (handler_keeps, k);
  write = tt;
  flush = λ ino fi. search (handler_keeps, k);
  release = λ ino fi. search (handler_keeps, k);
  fsync = λ ino datasync fi. search (handler_keeps, k);
  opendir = λ ino fi. search (handler_keeps, k);
  readdir = λ ino size off fi. search (handler_keeps, k);
  releasedir = λ ino fi. search (handler_keeps, k);
  fsyncdir = λ ino datasync fi. search (handler_keeps, k);
  statfs = λ ino. search (handler_keeps, k);
  setxattr = λ ino name value flags. search (handler_keeps, k);
  getxattr = λ ino name size. search (handler_keeps, k);
  listxattr = λ ino size. search (handler_keeps, k);
  removexattr = λ ino name. search (handler_keeps, k);
  access = λ ino mask. search (handler_keeps, k);
  create = λ ino name mode fi. search (handler_keeps, k);
  getlk = λ ino fi lock. search (handler_keeps, k);
  setlk = λ ino fi lock sleep. search (handler_keeps, k);
  bmap = tt;
  ioctl = tt;
  poll = λ ino fi ph. search (handler_keeps, k);
  write_buf = λ ino in_buf off fi. search (handler_keeps, k);
  retrieve_reply = tt;
  forget_multi = λ forgets. search (handler_keeps, k);
  flock = λ ino fi op. search (handler_keeps, k);
  fallocate = λ ino mode offset len fi. search (handler_keeps, k);
  readdirplus = λ ino size off fi. search (handler_keeps, k);
  copy_file_range =
      λ ino_in off_in fi_in ino_out off_out fi_out len flags. search (handler_keeps, k);
  lseek = λ ino off whence fi. search (handler_keeps, k);
}
