-- ===== src/Syscalls/Files.antt =====
-- pafs/syscalls.cc and syscalls.h: calls on descriptors.
use pagealignfs.Prelude.{ℕ, ◌||◌, ◌&&◌, not, if◌then◌else◌}
use pagealignfs.Prelude.Int.{ℤ, pos, eqb_ℤ, ltb_ℤ, int_max, int_min, to_u64}
use pagealignfs.Prelude.Bytes.{Text, text}
use pagealignfs.System.{Answer}
use pagealignfs.System.Types.{Flock}
use pagealignfs.System.Constants.{einval}
use pagealignfs.System.Calls.{Call}
use pagealignfs.World.{FileDescriptor}
use pagealignfs.Status.{of_status}
use pagealignfs.Effect.{call, asks}
use pagealignfs.Effect.Fallible.{E, pure, return, lift, ◌>>=◌}
use pagealignfs.Syscalls.Errors.{errno_result, errno_fail, check, checked_value}

-- The descriptor is released before the call, so a failure to close leaks it.
unfoldable pub close : FileDescriptor → E (Unit {0})
unfolding errno_result
close fd = do a ← lift (call (Call.close fd.fd)); errno_result a.errno (text "close")

unfoldable pub open_file : Text → (flags mode : ℕ) → E FileDescriptor
unfolding checked_value
open_file pathname flags mode = do
  a ← lift (call (Call.open_file pathname flags mode))
  checked_value a (text "open") (record { fd = a.rc })

unfoldable pub openat : ℤ → Text → (flags mode : ℕ) → E FileDescriptor
unfolding checked_value
openat dirfd pathname flags mode = do
  a ← lift (call (Call.openat dirfd pathname flags mode))
  checked_value a (text "openat") (record { fd = a.rc })

unfoldable pub read : ℤ → ℕ → E ℕ
unfolding checked_value
read fd count = do a ← lift (call (Call.read fd count)); checked_value a (text "read") (to_u64 a.rc)

unfoldable pub dup : ℤ → E FileDescriptor
unfolding checked_value
dup oldfd = do a ← lift (call (Call.dup oldfd)); checked_value a (text "dup") (record { fd = a.rc })

unfoldable pub fsync : ℤ → E (Unit {0})
unfolding check
fsync fd = do a ← lift (call (Call.fsync fd)); check a (text "fsync")

unfoldable pub fdatasync : ℤ → E (Unit {0})
unfolding check
fdatasync fd = do a ← lift (call (Call.fdatasync fd)); check a (text "fdatasync")

unfoldable pub fchmod : ℤ → ℕ → E (Unit {0})
unfolding check
fchmod fd mode = do a ← lift (call (Call.fchmod fd mode)); check a (text "fchmod")

unfoldable pub fchownat : ℤ → Text → (owner group flag : ℕ) → E (Unit {0})
unfolding check
fchownat fd path owner group flag = do
  a ← lift (call (Call.fchownat fd path owner group flag))
  check a (text "fchownat")

unfoldable pub ftruncate : ℤ → ℕ → E (Unit {0})
unfolding check
ftruncate fd len = do a ← lift (call (Call.ftruncate fd len)); check a (text "ftruncate")

unfoldable pub futimens : ℤ → ℕ × ℤ → ℕ × ℤ → E (Unit {0})
unfolding check
futimens fd atim mtim = do a ← lift (call (Call.futimens fd atim mtim)); check a (text "futimens")

unfoldable pub flock : ℤ → ℕ → E (Unit {0})
unfolding check
flock fd operation = do a ← lift (call (Call.flock fd operation)); check a (text "flock")

unfoldable pub fallocate : ℤ → (mode offset len : ℕ) → E (Unit {0})
unfolding check
fallocate fd mode offset len = do
  a ← lift (call (Call.fallocate fd mode offset len))
  check a (text "fallocate")

unfoldable pub copy_file_range : ℤ → ℕ → ℤ → ℕ → (len flags : ℕ) → E ℕ
unfolding checked_value
copy_file_range fd_in off_in fd_out off_out len flags = do
  a ← lift (call (Call.copy_file_range fd_in off_in fd_out off_out len flags))
  checked_value a (text "copy_file_range") (to_u64 a.rc)

unfoldable pub lseek : ℤ → (offset whence : ℕ) → E ℤ
unfolding checked_value
lseek fd offset whence = do
  a ← lift (call (Call.lseek fd offset whence))
  checked_value a (text "lseek") a.rc

unfoldable pub fcntl : ℤ → (cmd : ℕ) → Flock → E Flock
unfolding checked_value
fcntl fd cmd lock = do
  a ← lift (call (Call.fcntl fd cmd lock))
  checked_value a (text "fcntl") (record lock { l_type = a.number })

unfoldable pub fstatvfs : ℤ → E Text
unfolding checked_value
fstatvfs fd = do a ← lift (call (Call.fstatvfs fd)); checked_value a (text "fstatvfs") a.bytes

-- `fds` has one element. The time-out is refused where it does not fit an int of milliseconds, or
-- where it is rounded to none.
unfoldable pub poll : ℤ → (events : ℕ) → (timeout : ℤ) → E (ℕ × ℕ)
unfolding errno_fail checked_value
poll fd events timeout = do
  ms ← lift (asks λ e. e.to_int64_milliseconds timeout)
  if ltb_ℤ int_max ms || ltb_ℤ ms int_min || (eqb_ℤ ms (pos 0) && not (eqb_ℤ timeout (pos 0)))
      then errno_fail einval (text "Tried to convert to nonzero int milliseconds")
      else (do
        a ← lift (call (Call.poll fd events ms))
        checked_value a (text "poll") (to_u64 a.rc, a.number))

-- The error is made by absl::ErrnoToStatus, with no payload.
unfoldable pub ioctl : ℤ → (request : ℕ) → E Answer
ioctl fd request = do
  a ← lift (call (Call.ioctl fd request))
  if eqb_ℤ a.errno (pos 0) then pure a else (do
    st ← lift (asks λ e. e.errno_to_status a.errno (text "ioctl"))
    return (of_status st))
