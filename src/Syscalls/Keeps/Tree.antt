-- ===== src/Syscalls/Keeps/Tree.antt =====
-- Calls on names keep what calls keep.
use pagealignfs.Prelude.{ℕ}
use pagealignfs.Prelude.Int.{ℤ}
use pagealignfs.Prelude.Bytes.{Text}
use pagealignfs.World.{World}
use pagealignfs.Effect.Keeps.{Keeps}
use pagealignfs.Syscalls.Keeps.{CallsKeep, syscall_rules}
use pagealignfs.Syscalls.Tree.{
  stat, lstat, fstatat, readlinkat, mknodat, mkdirat, unlinkat, symlinkat, renameat2, renameat,
  linkat, fsetxattr, setxattr, getxattr_into, getxattr, listxattr, removexattr, access, faccessat,
}

module _ {P : World → Type 0} (k : CallsKeep P) where
  pub stat-Keeps : (pathname : Text) → Keeps P (stat pathname)
  unfolding stat
  stat-Keeps pathname = search (syscall_rules, k.at_call)

  pub lstat-Keeps : (pathname : Text) → Keeps P (lstat pathname)
  unfolding lstat
  lstat-Keeps pathname = search (syscall_rules, k.at_call)

  pub fstatat-Keeps : (fd : ℤ) (path : Text) (flag : ℕ) → Keeps P (fstatat fd path flag)
  unfolding fstatat
  fstatat-Keeps fd path flag = search (syscall_rules, k.at_call)

  pub readlinkat-Keeps :
      (dirfd : ℤ) (pathname : Text) (size : ℕ) → Keeps P (readlinkat dirfd pathname size)
  unfolding readlinkat
  readlinkat-Keeps dirfd pathname size = search (syscall_rules, k.at_call)

  pub mknodat-Keeps :
      (dirfd : ℤ) (pathname : Text) (mode dev : ℕ) → Keeps P (mknodat dirfd pathname mode dev)
  unfolding mknodat
  mknodat-Keeps dirfd pathname mode dev = search (syscall_rules, k.at_call)

  pub mkdirat-Keeps :
      (dirfd : ℤ) (pathname : Text) (mode : ℕ) → Keeps P (mkdirat dirfd pathname mode)
  unfolding mkdirat
  mkdirat-Keeps dirfd pathname mode = search (syscall_rules, k.at_call)

  pub unlinkat-Keeps :
      (dirfd : ℤ) (pathname : Text) (flags : ℕ) → Keeps P (unlinkat dirfd pathname flags)
  unfolding unlinkat
  unlinkat-Keeps dirfd pathname flags = search (syscall_rules, k.at_call)

  pub symlinkat-Keeps :
      (target : Text) (newdirfd : ℤ) (linkpath : Text)
      → Keeps P (symlinkat target newdirfd linkpath)
  unfolding symlinkat
  symlinkat-Keeps target newdirfd linkpath = search (syscall_rules, k.at_call)

  pub renameat2-Keeps :
      (olddirfd : ℤ) (oldpath : Text) (newdirfd : ℤ) (newpath : Text) (flags : ℕ)
      → Keeps P (renameat2 olddirfd oldpath newdirfd newpath flags)
  unfolding renameat2
  renameat2-Keeps olddirfd oldpath newdirfd newpath flags = search (syscall_rules, k.at_call)

  pub renameat-Keeps :
      (olddirfd : ℤ) (oldpath : Text) (newdirfd : ℤ) (newpath : Text)
      → Keeps P (renameat olddirfd oldpath newdirfd newpath)
  unfolding renameat
  renameat-Keeps olddirfd oldpath newdirfd newpath =
      search (syscall_rules, k.at_call, renameat2-Keeps)

  pub linkat-Keeps :
      (olddirfd : ℤ) (oldpath : Text) (newdirfd : ℤ) (newpath : Text) (flags : ℕ)
      → Keeps P (linkat olddirfd oldpath newdirfd newpath flags)
  unfolding linkat
  linkat-Keeps olddirfd oldpath newdirfd newpath flags = search (syscall_rules, k.at_call)

  pub fsetxattr-Keeps :
      (fd : ℤ) (name : Text) (value : Text) (flags : ℕ) → Keeps P (fsetxattr fd name value flags)
  unfolding fsetxattr
  fsetxattr-Keeps fd name value flags = search (syscall_rules, k.at_call)

  pub setxattr-Keeps :
      (path : Text) (name : Text) (value : Text) (flags : ℕ)
      → Keeps P (setxattr path name value flags)
  unfolding setxattr
  setxattr-Keeps path name value flags = search (syscall_rules, k.at_call)

  pub getxattr_into-Keeps :
      (path : Text) (name : Text) (size : ℕ) → Keeps P (getxattr_into path name size)
  unfolding getxattr_into
  getxattr_into-Keeps path name size = search (syscall_rules, k.at_call)

  pub getxattr-Keeps :
      (path : Text) (name : Text) (maxsize : ℕ) → Keeps P (getxattr path name maxsize)
  unfolding getxattr
  getxattr-Keeps path name maxsize = search (syscall_rules, k.at_call, getxattr_into-Keeps)

  pub listxattr-Keeps : (path : Text) (size : ℕ) → Keeps P (listxattr path size)
  unfolding listxattr
  listxattr-Keeps path size = search (syscall_rules, k.at_call)

  pub removexattr-Keeps : (path : Text) (name : Text) → Keeps P (removexattr path name)
  unfolding removexattr
  removexattr-Keeps path name = search (syscall_rules, k.at_call)

  pub access-Keeps : (pathname : Text) (mode : ℕ) → Keeps P (access pathname mode)
  unfolding access
  access-Keeps pathname mode = search (syscall_rules, k.at_call)

  pub faccessat-Keeps :
      (dirfd : ℤ) (pathname : Text) (mode flags : ℕ) → Keeps P (faccessat dirfd pathname mode flags)
  unfolding faccessat
  faccessat-Keeps dirfd pathname mode flags = search (syscall_rules, k.at_call)

pub ruleset tree_keeps = (
  stat-Keeps, lstat-Keeps, fstatat-Keeps, readlinkat-Keeps, mknodat-Keeps, mkdirat-Keeps,
  unlinkat-Keeps, symlinkat-Keeps, renameat2-Keeps, renameat-Keeps, linkat-Keeps, fsetxattr-Keeps,
  setxattr-Keeps, getxattr_into-Keeps, getxattr-Keeps, listxattr-Keeps, removexattr-Keeps,
  access-Keeps, faccessat-Keeps,
)
