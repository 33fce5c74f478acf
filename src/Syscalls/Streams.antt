-- ===== src/Syscalls/Streams.antt =====
-- pafs/syscalls.cc: directory streams.
use pagealignfs.Prelude.{ℕ, Bool, true, false, Option, none, some, ◌==◌, ◌&&◌, not, if◌then◌else◌}
use pagealignfs.Prelude.Int.{ℤ, pos, eqb_ℤ}
use pagealignfs.Prelude.Bytes.{text}
use pagealignfs.System.Types.{Dirent}
use pagealignfs.System.Calls.{Call}
use pagealignfs.World.{FileDescriptor}
use pagealignfs.Effect.{call}
use pagealignfs.Effect.Fallible.{E, pure, lift, ◌>>=◌}
use pagealignfs.Syscalls.Errors.{errno_result, errno_fail, checked_value}

-- A failing fdopendir leaves the descriptor open, and nobody owns it any more.
unfoldable pub fdopendir : FileDescriptor → E ℕ
unfolding errno_fail
fdopendir fd = do
  a ← lift (call (Call.fdopendir fd.fd))
  if a.number == 0 then errno_fail a.errno (text "fdopendir") else pure a.number

unfoldable pub closedir : ℕ → E (Unit {0})
unfolding errno_result
closedir dir = do a ← lift (call (Call.closedir dir)); errno_result a.errno (text "closedir")

is_none : Option Dirent → Bool
is_none none = true
is_none (some ent) = false

-- The end of the directory is a null entry with `errno` left at 0.
unfoldable pub readdir : ℕ → E (Option Dirent)
unfolding errno_fail is_none
readdir dir = do
  a ← lift (call (Call.readdir dir))
  if is_none a.entry && not (eqb_ℤ a.errno (pos 0))
      then errno_fail a.errno (text "readdir")
      else pure a.entry

unfoldable pub telldir : ℕ → E ℤ
unfolding checked_value
telldir dir = do a ← lift (call (Call.telldir dir)); checked_value a (text "telldir") a.rc

unfoldable pub seekdir : ℕ → ℕ → E (Unit {0})
seekdir dir loc = do _ ← lift (call (Call.seekdir dir loc)); pure tt

unfoldable pub dirfd : ℕ → E ℤ
unfolding checked_value
dirfd dirp = do a ← lift (call (Call.dirfd dirp)); checked_value a (text "dirfd") a.rc
