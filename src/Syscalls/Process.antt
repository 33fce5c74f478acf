-- ===== src/Syscalls/Process.antt =====
-- pafs/syscalls.cc: mounts, signals and threads.
use pagealignfs.Prelude.{ℕ, if◌then◌else◌}
use pagealignfs.Prelude.Int.{ℤ, pos, minus_one, eqb_ℤ}
use pagealignfs.Prelude.Bytes.{Text, text}
use pagealignfs.System.Calls.{Call}
use pagealignfs.World.{FileDescriptor}
use pagealignfs.Effect.{call}
use pagealignfs.Effect.Fallible.{E, pure, lift, ◌>>=◌, ◌>>◌}
use pagealignfs.Syscalls.Errors.{errno_result, checked_value}

-- The Mount is made of the target; `umount` stands with it in Resource/Mount.antt.
unfoldable pub mount : Text → Text → Text → (flags : ℕ) → E Text
unfolding checked_value
mount source target filesystemtype mountflags = do
  a ← lift (call (Call.mount source target filesystemtype mountflags))
  checked_value a (text "mount") target

unfoldable pub sigaction : ℤ → E (Unit {0})
unfolding errno_result
sigaction signum = do
  a ← lift (call (Call.sigaction signum))
  if eqb_ℤ a.rc (pos 0) then pure tt else errno_result a.errno (text "sigaction")

unfoldable pub signalfd : (mask flags : ℕ) → E FileDescriptor
unfolding checked_value
signalfd mask flags = do
  a ← lift (call (Call.signalfd minus_one mask flags))
  checked_value a (text "signalfd") (record { fd = a.rc })

unfoldable pub signalfd_update : ℤ → (mask flags : ℕ) → E (Unit {0})
unfolding errno_result
signalfd_update fd mask flags = do
  a ← lift (call (Call.signalfd fd mask flags))
  errno_result a.errno (text "signalfd")

unfoldable pub sigprocmask : ℤ → (set : ℕ) → E ℕ
unfolding errno_result
sigprocmask how set = do
  a ← lift (call (Call.sigprocmask how set))
  errno_result a.errno (text "sigprocmask")
  pure a.number

-- The error number is the return value; the old set comes back.
unfoldable pub pthread_sigmask : ℤ → (set : ℕ) → E ℕ
unfolding errno_result
pthread_sigmask how set = do
  a ← lift (call (Call.pthread_sigmask how set))
  errno_result a.rc (text "pthread_sigmask")
  pure a.number

unfoldable pub pthread_setschedparam : ℕ → ℤ → (param : ℕ) → E (Unit {0})
unfolding errno_result
pthread_setschedparam thread policy param = do
  a ← lift (call (Call.pthread_setschedparam thread policy param))
  errno_result a.rc (text "pthread_setschedparam")
