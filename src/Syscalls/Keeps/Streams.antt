-- ===== src/Syscalls/Keeps/Streams.antt =====
-- Calls on directory streams keep what calls keep.
use pagealignfs.Prelude.{ℕ}
use pagealignfs.World.{World, FileDescriptor}
use pagealignfs.Effect.Keeps.{Keeps}
use pagealignfs.Syscalls.Keeps.{CallsKeep, syscall_rules}
use pagealignfs.Syscalls.Streams.{fdopendir, closedir, readdir, telldir, seekdir, dirfd}

module _ {P : World → Type 0} (k : CallsKeep P) where
  pub fdopendir-Keeps : (fd : FileDescriptor) → Keeps P (fdopendir fd)
  unfolding fdopendir
  fdopendir-Keeps fd = search (syscall_rules, k.at_call)

  pub closedir-Keeps : (dir : ℕ) → Keeps P (closedir dir)
  unfolding closedir
  closedir-Keeps dir = search (syscall_rules, k.at_call)

  pub readdir-Keeps : (dir : ℕ) → Keeps P (readdir dir)
  unfolding readdir
  readdir-Keeps dir = search (syscall_rules, k.at_call)

  pub telldir-Keeps : (dir : ℕ) → Keeps P (telldir dir)
  unfolding telldir
  telldir-Keeps dir = search (syscall_rules, k.at_call)

  pub seekdir-Keeps : (dir : ℕ) (loc : ℕ) → Keeps P (seekdir dir loc)
  unfolding seekdir
  seekdir-Keeps dir loc = search (syscall_rules, k.at_call)

  pub dirfd-Keeps : (dirp : ℕ) → Keeps P (dirfd dirp)
  unfolding dirfd
  dirfd-Keeps dirp = search (syscall_rules, k.at_call)

pub ruleset stream_keeps =
    (fdopendir-Keeps, closedir-Keeps, readdir-Keeps, telldir-Keeps, seekdir-Keeps, dirfd-Keeps)
