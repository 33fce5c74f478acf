-- ===== src/Syscalls/Quiet.antt =====
-- The wrappers that a lookup and the destructors call: they always return, and change nothing but
-- the trace.
use pagealignfs.Prelude.{ℕ}
use pagealignfs.Prelude.Int.{ℤ}
use pagealignfs.Prelude.Bytes.{Text}
use pagealignfs.System.{Answer}
use pagealignfs.World.{FileDescriptor}
use pagealignfs.Effect.Returns.{Quiet, quiet_rules}
use pagealignfs.Syscalls.Errors.{errno_result, errno_fail, check, checked_value}
use pagealignfs.Syscalls.Files.{close, open_file, openat, ioctl}
use pagealignfs.Syscalls.Streams.{readdir, seekdir}
use pagealignfs.Syscalls.Tree.{fstatat, mknodat, mkdirat, symlinkat, linkat}

pub errno_result-Quiet : (n : ℤ) (name : Text) → Quiet (errno_result n name)
unfolding errno_result
errno_result-Quiet n name = search quiet_rules

errno_fail-Quiet : {A : Type 0} (n : ℤ) (name : Text) → Quiet (errno_fail {A = A} n name)
unfolding errno_fail
errno_fail-Quiet n name = search quiet_rules

pub check-Quiet : (a : Answer) (name : Text) → Quiet (check a name)
unfolding check
check-Quiet a name = search (quiet_rules, errno_result-Quiet)

pub checked_value-Quiet :
    {A : Type 0} (a : Answer) (name : Text) (value : A) → Quiet (checked_value a name value)
unfolding checked_value
checked_value-Quiet a name value = search (quiet_rules, errno_fail-Quiet)

pub close-Quiet : (fd : FileDescriptor) → Quiet (close fd)
unfolding close
close-Quiet fd = search (quiet_rules, errno_result-Quiet)

pub open_file-Quiet : (pathname : Text) (flags mode : ℕ) → Quiet (open_file pathname flags mode)
unfolding open_file
open_file-Quiet pathname flags mode = search (quiet_rules, checked_value-Quiet)

pub openat-Quiet :
    (dirfd : ℤ) (pathname : Text) (flags mode : ℕ) → Quiet (openat dirfd pathname flags mode)
unfolding openat
openat-Quiet dirfd pathname flags mode = search (quiet_rules, checked_value-Quiet)

pub ioctl-Quiet : (fd : ℤ) (request : ℕ) → Quiet (ioctl fd request)
unfolding ioctl
ioctl-Quiet fd request = search (quiet_rules, checked_value-Quiet)

pub fstatat-Quiet : (fd : ℤ) (path : Text) (flag : ℕ) → Quiet (fstatat fd path flag)
unfolding fstatat
fstatat-Quiet fd path flag = search (quiet_rules, checked_value-Quiet)

pub mknodat-Quiet : (fd : ℤ) (path : Text) (mode dev : ℕ) → Quiet (mknodat fd path mode dev)
unfolding mknodat
mknodat-Quiet fd path mode dev = search (quiet_rules, check-Quiet)

pub mkdirat-Quiet : (fd : ℤ) (path : Text) (mode : ℕ) → Quiet (mkdirat fd path mode)
unfolding mkdirat
mkdirat-Quiet fd path mode = search (quiet_rules, check-Quiet)

pub symlinkat-Quiet : (target : Text) (fd : ℤ) (path : Text) → Quiet (symlinkat target fd path)
unfolding symlinkat
symlinkat-Quiet target fd path = search (quiet_rules, check-Quiet)

pub linkat-Quiet :
    (olddir : ℤ) (oldpath : Text) (newdir : ℤ) (newpath : Text) (flags : ℕ)
    → Quiet (linkat olddir oldpath newdir newpath flags)
unfolding linkat
linkat-Quiet olddir oldpath newdir newpath flags = search (quiet_rules, check-Quiet)

pub readdir-Quiet : (dir : ℕ) → Quiet (readdir dir)
unfolding readdir
readdir-Quiet dir = search (quiet_rules, errno_fail-Quiet)

pub seekdir-Quiet : (dir loc : ℕ) → Quiet (seekdir dir loc)
unfolding seekdir
seekdir-Quiet dir loc = search quiet_rules
