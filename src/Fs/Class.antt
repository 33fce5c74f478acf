-- ===== src/Fs/Class.antt =====
-- class PageAlignFS, pafs/page_align_fs.h, as the operations that it offers to libfuse: one for each
-- static_assert of the class. It has no Write, BMap, IOCtl and RetrieveReply.
use pagealignfs.Prelude.{none, some}
use pagealignfs.Fs.Entries.{init, destroy, lookup, forget, forget_multi}
use pagealignfs.Fs.Names.{read_link, mknod, mkdir, unlink, rmdir, symlink, rename, link}
use pagealignfs.Fs.Attrs.{get_attr, set_attr, stat_fs, access_file}
use pagealignfs.Fs.Files
use pagealignfs.Fs.Files.{open_ino, release_file, flush, f_sync, f_allocate, copy_range, l_seek}
use pagealignfs.Fs.Locks.{get_lk, set_lk, f_lock, poll_ino}
use pagealignfs.Fs.XAttrs.{set_x_attr, get_x_attr, list_x_attr, remove_x_attr}
use pagealignfs.Fs.Streams.{open_dir, release_dir, read_dir, read_dir_plus, f_sync_dir}
use pagealignfs.Callbacks.Class.{FuseOps}

abbrev pub page_align_fs : FuseOps
page_align_fs = record {
  init = some (λ conn. init);
  destroy = some destroy;
  lookup = some lookup;
  forget = some forget;
  getattr = some get_attr;
  setattr = some set_attr;
  readlink = some read_link;
  mknod = some mknod;
  mkdir = some mkdir;
  unlink = some unlink;
  rmdir = some rmdir;
  symlink = some symlink;
  rename = some rename;
  link = some link;
  open_file = some open_ino;
  read = some Files.read;
  write = none;
  flush = some flush;
  release = some release_file;
  fsync = some f_sync;
  opendir = some open_dir;
  readdir = some read_dir;
  releasedir = some release_dir;
  fsyncdir = some f_sync_dir;
  statfs = some stat_fs;
  setxattr = some set_x_attr;
  getxattr = some get_x_attr;
  listxattr = some list_x_attr;
  removexattr = some remove_x_attr;
  access = some access_file;
  create = some Files.create;
  getlk = some (λ ino fi lock. get_lk ino lock);
  setlk = some (λ ino fi lock sleep. set_lk ino lock sleep);
  bmap = none;
  ioctl = none;
  poll = some (λ ino fi ph. poll_ino ino ph);
  write_buf = some Files.write_buf;
  retrieve_reply = none;
  forget_multi = some forget_multi;
  flock = some (λ ino fi op. f_lock ino op);
  fallocate = some (λ ino mode offset len fi. f_allocate ino mode offset len);
  readdirplus = some read_dir_plus;
  copy_file_range = some (λ ino_in off_in fi_in ino_out off_out fi_out len flags.
      copy_range ino_in off_in ino_out off_out len flags);
  lseek = some (λ ino off whence fi. l_seek ino off whence);
}
