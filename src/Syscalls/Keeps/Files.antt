-- ===== src/Syscalls/Keeps/Files.antt =====
-- Calls on descriptors keep what calls keep.
use pagealignfs.Prelude.{ℕ}
use pagealignfs.Prelude.Int.{ℤ}
use pagealignfs.Prelude.Bytes.{Text}
use pagealignfs.System.Types.{Flock}
use pagealignfs.World.{World, FileDescriptor}
use pagealignfs.Effect.Keeps.{Keeps}
use pagealignfs.Syscalls.Keeps.{CallsKeep, syscall_rules}
use pagealignfs.Syscalls.Files.{
  close, open_file, openat, read, dup, fsync, fdatasync, fchmod, fchownat, ftruncate, futimens,
  flock, fallocate, copy_file_range, lseek, fcntl, fstatvfs, poll, ioctl,
}

module _ {P : World → Type 0} (k : CallsKeep P) where
  pub close-Keeps : (fd : FileDescriptor) → Keeps P (close fd)
  unfolding close
  close-Keeps fd = search (syscall_rules, k.at_call)

  pub open_file-Keeps : (pathname : Text) (flags mode : ℕ) → Keeps P (open_file pathname flags mode)
  unfolding open_file
  open_file-Keeps pathname flags mode = search (syscall_rules, k.at_call)

  pub openat-Keeps :
      (dirfd : ℤ) (pathname : Text) (flags mode : ℕ) → Keeps P (openat dirfd pathname flags mode)
  unfolding openat
  openat-Keeps dirfd pathname flags mode = search (syscall_rules, k.at_call)

  pub read-Keeps : (fd : ℤ) (count : ℕ) → Keeps P (read fd count)
  unfolding read
  read-Keeps fd count = search (syscall_rules, k.at_call)

  pub dup-Keeps : (oldfd : ℤ) → Keeps P (dup oldfd)
  unfolding dup
  dup-Keeps oldfd = search (syscall_rules, k.at_call)

  pub fsync-Keeps : (fd : ℤ) → Keeps P (fsync fd)
  unfolding fsync
  fsync-Keeps fd = search (syscall_rules, k.at_call)

  pub fdatasync-Keeps : (fd : ℤ) → Keeps P (fdatasync fd)
  unfolding fdatasync
  fdatasync-Keeps fd = search (syscall_rules, k.at_call)

  pub fchmod-Keeps : (fd : ℤ) (mode : ℕ) → Keeps P (fchmod fd mode)
  unfolding fchmod
  fchmod-Keeps fd mode = search (syscall_rules, k.at_call)

  pub fchownat-Keeps :
      (fd : ℤ) (path : Text) (owner group flag : ℕ) → Keeps P (fchownat fd path owner group flag)
  unfolding fchownat
  fchownat-Keeps fd path owner group flag = search (syscall_rules, k.at_call)

  pub ftruncate-Keeps : (fd : ℤ) (len : ℕ) → Keeps P (ftruncate fd len)
  unfolding ftruncate
  ftruncate-Keeps fd len = search (syscall_rules, k.at_call)

  pub futimens-Keeps : (fd : ℤ) (atim : ℕ × ℤ) (mtim : ℕ × ℤ) → Keeps P (futimens fd atim mtim)
  unfolding futimens
  futimens-Keeps fd atim mtim = search (syscall_rules, k.at_call)

  pub flock-Keeps : (fd : ℤ) (operation : ℕ) → Keeps P (flock fd operation)
  unfolding flock
  flock-Keeps fd operation = search (syscall_rules, k.at_call)

  pub fallocate-Keeps : (fd : ℤ) (mode offset len : ℕ) → Keeps P (fallocate fd mode offset len)
  unfolding fallocate
  fallocate-Keeps fd mode offset len = search (syscall_rules, k.at_call)

  pub copy_file_range-Keeps :
      (fd_in : ℤ) (off_in : ℕ) (fd_out : ℤ) (off_out : ℕ) (len flags : ℕ)
      → Keeps P (copy_file_range fd_in off_in fd_out off_out len flags)
  unfolding copy_file_range
  copy_file_range-Keeps fd_in off_in fd_out off_out len flags = search (syscall_rules, k.at_call)

  pub lseek-Keeps : (fd : ℤ) (offset whence : ℕ) → Keeps P (lseek fd offset whence)
  unfolding lseek
  lseek-Keeps fd offset whence = search (syscall_rules, k.at_call)

  pub fcntl-Keeps : (fd : ℤ) (cmd : ℕ) (lock : Flock) → Keeps P (fcntl fd cmd lock)
  unfolding fcntl
  fcntl-Keeps fd cmd lock = search (syscall_rules, k.at_call)

  pub fstatvfs-Keeps : (fd : ℤ) → Keeps P (fstatvfs fd)
  unfolding fstatvfs
  fstatvfs-Keeps fd = search (syscall_rules, k.at_call)

  pub poll-Keeps : (fd : ℤ) (events : ℕ) (timeout : ℤ) → Keeps P (poll fd events timeout)
  unfolding poll
  poll-Keeps fd events timeout = search (syscall_rules, k.at_call)

  pub ioctl-Keeps : (fd : ℤ) (request : ℕ) → Keeps P (ioctl fd request)
  unfolding ioctl
  ioctl-Keeps fd request = search (syscall_rules, k.at_call)

pub ruleset file_keeps = (
  close-Keeps, open_file-Keeps, openat-Keeps, read-Keeps, dup-Keeps, fsync-Keeps, fdatasync-Keeps,
  fchmod-Keeps, fchownat-Keeps, ftruncate-Keeps, futimens-Keeps, flock-Keeps, fallocate-Keeps,
  copy_file_range-Keeps, lseek-Keeps, fcntl-Keeps, fstatvfs-Keeps, poll-Keeps, ioctl-Keeps,
)
