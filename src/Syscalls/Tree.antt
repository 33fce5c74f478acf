-- ===== src/Syscalls/Tree.antt =====
-- pafs/syscalls.cc: calls on names in the file tree.
use pagealignfs.Prelude.{ℕ, leb, resize, if◌then◌else◌}
use pagealignfs.Prelude.Int.{ℤ, to_u64}
use pagealignfs.Prelude.Bytes.{Text, text}
use pagealignfs.System.Types.{Stat}
use pagealignfs.System.Calls.{Call}
use pagealignfs.Effect.{call, abort}
use pagealignfs.Effect.Fallible.{E, pure, lift, ◌>>=◌}
use pagealignfs.Syscalls.Errors.{check, checked_value}

unfoldable pub stat : Text → E Stat
unfolding checked_value
stat pathname = do a ← lift (call (Call.stat pathname)); checked_value a (text "stat") a.stat

unfoldable pub lstat : Text → E Stat
unfolding checked_value
lstat pathname = do a ← lift (call (Call.lstat pathname)); checked_value a (text "lstat") a.stat

unfoldable pub fstatat : ℤ → Text → (flag : ℕ) → E Stat
unfolding checked_value
fstatat fd path flag = do
  a ← lift (call (Call.fstatat fd path flag))
  checked_value a (text "fstatat") a.stat

unfoldable pub readlinkat : ℤ → Text → (size : ℕ) → E (ℤ × Text)
unfolding checked_value
readlinkat dirfd pathname size = do
  a ← lift (call (Call.readlinkat dirfd pathname size))
  checked_value a (text "readlinkat") (a.rc, a.bytes)

unfoldable pub mknodat : ℤ → Text → (mode dev : ℕ) → E (Unit {0})
unfolding check
mknodat dirfd pathname mode dev = do
  a ← lift (call (Call.mknodat dirfd pathname mode dev))
  check a (text "mknodat")

unfoldable pub mkdirat : ℤ → Text → (mode : ℕ) → E (Unit {0})
unfolding check
mkdirat dirfd pathname mode = do
  a ← lift (call (Call.mkdirat dirfd pathname mode))
  check a (text "mkdirat")

unfoldable pub unlinkat : ℤ → Text → (flags : ℕ) → E (Unit {0})
unfolding check
unlinkat dirfd pathname flags = do
  a ← lift (call (Call.unlinkat dirfd pathname flags))
  check a (text "unlinkat")

unfoldable pub symlinkat : Text → ℤ → Text → E (Unit {0})
unfolding check
symlinkat target newdirfd linkpath = do
  a ← lift (call (Call.symlinkat target newdirfd linkpath))
  check a (text "symlinkat")

unfoldable pub renameat2 : ℤ → Text → ℤ → Text → (flags : ℕ) → E (Unit {0})
unfolding check
renameat2 olddirfd oldpath newdirfd newpath flags = do
  a ← lift (call (Call.renameat2 olddirfd oldpath newdirfd newpath flags))
  check a (text "renameat2")

unfoldable pub renameat : ℤ → Text → ℤ → Text → E (Unit {0})
unfolding renameat2
renameat olddirfd oldpath newdirfd newpath = renameat2 olddirfd oldpath newdirfd newpath 0

unfoldable pub linkat : ℤ → Text → ℤ → Text → (flags : ℕ) → E (Unit {0})
unfolding check
linkat olddirfd oldpath newdirfd newpath flags = do
  a ← lift (call (Call.linkat olddirfd oldpath newdirfd newpath flags))
  check a (text "linkat")

unfoldable pub fsetxattr : ℤ → Text → Text → (flags : ℕ) → E (Unit {0})
unfolding check
fsetxattr fd name value flags = do
  a ← lift (call (Call.fsetxattr fd name value flags))
  check a (text "fsetxattr")

unfoldable pub setxattr : Text → Text → Text → (flags : ℕ) → E (Unit {0})
unfolding check
setxattr path name value flags = do
  a ← lift (call (Call.setxattr path name value flags))
  check a (text "setxattr")

unfoldable pub getxattr_into : Text → Text → (size : ℕ) → E (ℕ × Text)
unfolding checked_value
getxattr_into path name size = do
  a ← lift (call (Call.getxattr path name size))
  checked_value a (text "getxattr") (to_u64 a.rc, a.bytes)

-- The overload that allocates the buffer: `val.resize(nb)` after CHECK_LE(nb, maxsize).
unfoldable pub getxattr : Text → Text → (maxsize : ℕ) → E Text
unfolding getxattr_into
getxattr path name maxsize = do
  (nb, bytes) ← getxattr_into path name maxsize
  if leb nb maxsize then pure (resize nb 0 bytes) else lift abort

unfoldable pub listxattr : Text → (size : ℕ) → E (ℕ × Text)
unfolding checked_value
listxattr path size = do
  a ← lift (call (Call.listxattr path size))
  checked_value a (text "listxattr") (to_u64 a.rc, a.bytes)

unfoldable pub removexattr : Text → Text → E (Unit {0})
unfolding check
removexattr path name = do
  a ← lift (call (Call.removexattr path name))
  check a (text "removexattr")

unfoldable pub access : Text → ℕ → E (Unit {0})
unfolding check
access pathname mode = do a ← lift (call (Call.access pathname mode)); check a (text "access")

unfoldable pub faccessat : ℤ → Text → (mode flags : ℕ) → E (Unit {0})
unfolding check
faccessat dirfd pathname mode flags = do
  a ← lift (call (Call.faccessat dirfd pathname mode flags))
  check a (text "faccessat")
