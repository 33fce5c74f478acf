-- ===== src/Request.antt =====
-- class FuseRequest of pafs/fuse.h and pafs/fuse.cc: the one reply that a request is owed. The
-- request of the callback that runs is `World.req`; a reply empties it, and without a request every
-- Reply… returns OK.
pub mod Codes
pub mod Replies
pub mod DirsBuilder
pub mod Fits
pub mod Kept
pub mod Proper
use pagealignfs.Prelude.{ℕ, Bool, List, Option, none, some, if◌then◌else◌}
use pagealignfs.Prelude.Int.{ℤ, pos, negate}
use pagealignfs.Prelude.Bytes.{Text, text}
use pagealignfs.System.Types.{Status}
use pagealignfs.System.Calls.{Call, Reply}
use pagealignfs.System.Constants.{ecomm}
use pagealignfs.World.{World}
use pagealignfs.Status.{StatusOr, ok, err, is_ok, get_errno_from_status}
use pagealignfs.Effect
use pagealignfs.Effect.{M, gets, asks, modify, call, abort}
use pagealignfs.Effect.Fallible.{E, pure, lift, attempt, log_if_error, ◌>>=◌, ◌>>◌}
use pagealignfs.Syscalls.Errors.{errno_result}
use pagealignfs.Request.Codes.{status_code_to_errno}

-- req_ = std::nullopt
unfoldable pub clear : M (Unit {0})
clear = modify λ w. record w { req = none }

unfoldable pub send_to : Reply → Text → Option ℕ → E (Unit {0})
unfolding clear
send_to r name none = pure tt
send_to r name (some req) = do
  a ← lift (call (Call.fuse_reply req r))
  lift clear
  errno_result (negate a.rc) name

-- What the bodies of ReplyAttr … ReplyPoll share, at the libfuse function that each calls.
unfoldable pub send : Reply → Text → E (Unit {0})
unfolding send_to
send r name = do req ← lift (gets (λ w. w.req)); send_to r name req

unfoldable pub reply_errno : ℤ → E (Unit {0})
reply_errno errnum = send (Reply.err errnum) (text "fuse_reply_err")

unfoldable pub send_none : Option ℕ → M (Unit {0})
unfolding clear
send_none none = Effect.pure tt
send_none (some req) = Effect.◌>>=◌ (call (Call.fuse_reply req Reply.none)) λ _. clear

-- ReplyNone
unfoldable pub reply_none : M (Unit {0})
unfolding send_none
reply_none = Effect.◌>>=◌ (gets (λ w. w.req)) send_none

unfoldable pub errno_or_code : Status → StatusOr ℤ → ℤ
unfolding status_code_to_errno
errno_or_code status (ok n) = n
errno_or_code status (err _) = status_code_to_errno status.code

-- The errno that ReplyFailure answers with.
unfoldable pub failure_errno : Status → M ℤ
unfolding errno_or_code
failure_errno status = asks λ e. errno_or_code status (get_errno_from_status e status)

unfoldable pub answer_failure : Status → Option ℕ → E (Unit {0})
unfolding failure_errno clear
answer_failure status none = pure tt
answer_failure status (some _) = do
  n ← lift (failure_errno status)
  st ← attempt (reply_errno n)
  lift clear
  Effect.pure st

-- ReplyFailure
unfoldable pub reply_failure : Status → E (Unit {0})
unfolding answer_failure
reply_failure status =
    if is_ok status.code
    then lift abort
    else (do req ← lift (gets (λ w. w.req)); answer_failure status req)

unfoldable pub reply_failure_and_log_if_not_ok : StatusOr (Unit {0}) → M (Unit {0})
unfolding reply_failure
reply_failure_and_log_if_not_ok (ok _) = Effect.pure tt
reply_failure_and_log_if_not_ok (err status) = log_if_error (reply_failure status)

unfoldable pub reply_always_and_log_if_not_ok : StatusOr (Unit {0}) → M (Unit {0})
unfolding reply_failure
reply_always_and_log_if_not_ok (ok _) = log_if_error (reply_errno (pos 0))
reply_always_and_log_if_not_ok (err status) = log_if_error (reply_failure status)

unfoldable pub destroy_pending : Option ℕ → M (Unit {0})
destroy_pending none = Effect.pure tt
destroy_pending (some _) = log_if_error (reply_errno ecomm)

-- ~FuseRequest: a request that nobody answered is answered with ECOMM.
unfoldable pub destroy : M (Unit {0})
unfolding destroy_pending
destroy = Effect.◌>>=◌ (gets (λ w. w.req)) destroy_pending
