-- ===== src/Syscalls/Errors.antt =====
-- How a failing call becomes a status: `if (rc == -1) return ErrnoToStatus(errno, name)`. The
-- message is the name of the call; the arguments that the source adds to it go to the log alone.
use pagealignfs.Prelude.{if◌then◌else◌}
use pagealignfs.Prelude.Int.{ℤ, minus_one, eqb_ℤ}
use pagealignfs.Prelude.Bytes.{Text}
use pagealignfs.System.{Answer}
use pagealignfs.Status.{errno_to_status, to_result, of_status}
use pagealignfs.Effect.{asks}
use pagealignfs.Effect.Fallible.{E, pure, return, lift, ◌>>=◌}

-- in a function that returns absl::Status
unfoldable pub errno_result : ℤ → Text → E (Unit {0})
unfolding errno_to_status
errno_result n name = do st ← lift (asks λ e. errno_to_status e n name); return (to_result st)

-- in a function that returns absl::StatusOr
unfoldable pub errno_fail : {A : Type 0} → ℤ → Text → E A
unfolding errno_to_status
errno_fail n name = do st ← lift (asks λ e. errno_to_status e n name); return (of_status st)

unfoldable pub check : Answer → Text → E (Unit {0})
unfolding errno_result
check a name = if eqb_ℤ a.rc minus_one then errno_result a.errno name else pure tt

unfoldable pub checked_value : {A : Type 0} → Answer → Text → A → E A
unfolding errno_fail
checked_value a name value = if eqb_ℤ a.rc minus_one then errno_fail a.errno name else pure value
