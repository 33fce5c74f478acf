-- ===== src/System/Calls.antt =====
-- The calls that leave the program, with their arguments.
use pagealignfs.Prelude.{ℕ, Bool}
use pagealignfs.Prelude.Int.{ℤ}
use pagealignfs.Prelude.Bytes.{Text}
use pagealignfs.System.Types.{Stat, FileInfo, EntryParam, Bufvec, Flock}

-- fuse_reply_…
pub data Reply : Type 0 where
  attr : Stat → (timeout : ℤ) → Reply
  open_file : FileInfo → Reply
  create : EntryParam → FileInfo → Reply
  err : ℤ → Reply
  buf : Text → Reply
  entry : EntryParam → Reply
  readlink : Text → Reply
  none : Reply
  contents : Bufvec → ℕ → Reply
  write : ℕ → Reply
  statfs : Text → Reply
  lock : Flock → Reply
  lseek : ℤ → Reply
  poll : ℕ → Reply

-- What pafs/main.cc calls of libfuse, of the C library and of its stream of errors. Of a session it
-- passes on the pointer, and of a loop configuration too.
pub data SessionCall : Type 0 where
  parse_cmdline opt_free_args free_mountpoint : SessionCall
  cmdline_help lowlevel_help lowlevel_version : SessionCall
  print : Text → SessionCall
  new_session : SessionCall
  destroy_session set_signal_handlers remove_signal_handlers unmount : (session : ℕ) → SessionCall
  mount : (session : ℕ) → (mountpoint : Text) → SessionCall
  daemonize : (foreground : Bool) → SessionCall
  cfg_create : SessionCall
  cfg_destroy : (config : ℕ) → SessionCall
  cfg_set_clone_fd : (config : ℕ) → Bool → SessionCall
  cfg_set_idle_threads cfg_set_max_threads : (config n : ℕ) → SessionCall

pub data Call : Type 0 where
  session : SessionCall → Call
  close : ℤ → Call
  open_file : Text → (flags mode : ℕ) → Call
  openat : ℤ → Text → (flags mode : ℕ) → Call
  read : ℤ → ℕ → Call
  mount : Text → Text → Text → (flags : ℕ) → Call
  umount2 : Text → (flags : ℕ) → Call
  stat lstat : Text → Call
  fstatat : ℤ → Text → (flag : ℕ) → Call
  sigaction : ℤ → Call
  signalfd : ℤ → (mask flags : ℕ) → Call
  sigprocmask pthread_sigmask : ℤ → (set : ℕ) → Call
  pthread_setschedparam : ℕ → ℤ → (param : ℕ) → Call
  ioctl : ℤ → (request : ℕ) → Call
  fdopendir : ℤ → Call
  closedir readdir telldir dirfd : ℕ → Call
  seekdir : ℕ → ℕ → Call
  fchmod : ℤ → ℕ → Call
  fchownat : ℤ → Text → (owner group flag : ℕ) → Call
  ftruncate : ℤ → ℕ → Call
  futimens : ℤ → ℕ × ℤ → ℕ × ℤ → Call
  readlinkat : ℤ → Text → (size : ℕ) → Call
  mknodat : ℤ → Text → (mode dev : ℕ) → Call
  mkdirat : ℤ → Text → (mode : ℕ) → Call
  unlinkat : ℤ → Text → (flags : ℕ) → Call
  symlinkat : Text → ℤ → Text → Call
  renameat2 : ℤ → Text → ℤ → Text → (flags : ℕ) → Call
  linkat : ℤ → Text → ℤ → Text → (flags : ℕ) → Call
  dup fsync fdatasync fstatvfs : ℤ → Call
  fsetxattr : ℤ → Text → Text → (flags : ℕ) → Call
  setxattr : Text → Text → Text → (flags : ℕ) → Call
  getxattr : Text → Text → (size : ℕ) → Call
  listxattr : Text → (size : ℕ) → Call
  removexattr : Text → Text → Call
  access : Text → ℕ → Call
  faccessat : ℤ → Text → (mode flags : ℕ) → Call
  flock : ℤ → ℕ → Call
  fallocate : ℤ → (mode offset len : ℕ) → Call
  copy_file_range : ℤ → ℕ → ℤ → ℕ → (len flags : ℕ) → Call
  lseek : ℤ → (offset whence : ℕ) → Call
  poll : ℤ → (events : ℕ) → (timeout : ℤ) → Call
  fcntl : ℤ → (cmd : ℕ) → Flock → Call
  fuse_reply : (req : ℕ) → Reply → Call
  fuse_buf_copy : Bufvec → Bufvec → (flags : ℕ) → Call
  fuse_add_direntry : (req size : ℕ) → Text → Stat → (off : ℕ) → Call
  fuse_add_direntry_plus : (req size : ℕ) → Text → EntryParam → (off : ℕ) → Call
  fuse_pollhandle_destroy fuse_lowlevel_notify_poll : ℕ → Call
