-- ===== src/Callbacks/SetLk.antt =====
-- The callback for fcntl locks (fuse_ops.h) where the lock is refused: the errno of the call goes
-- into a status, and comes back out of it for the reply.
use pagealignfs.Prelude.{ℕ, ◌≡◌, ◌≢◌, refl, Bool, true, false, some, none, ◌∷◌, if◌then◌else◌}
use pagealignfs.Prelude.Int.{ℤ, pos, IsInt, minus_one, eqb_ℤ}
use pagealignfs.System.{Env, Answer}
use pagealignfs.System.Types.{FileInfo, Flock, StatusCode}
use pagealignfs.System.Calls.{Call, Reply}
use pagealignfs.System.Constants.{f_setlk, f_setlkw}
use pagealignfs.Prelude.Bytes.{text}
use pagealignfs.Status.{is_ok, errno_to_status, errno_to_error_name, errno_type_url}
use pagealignfs.Status.Laws.{StatusLaws}
use pagealignfs.Status.RoundTrip.{IsRecoverable, errno_round_trip, is_ok-false}
use pagealignfs.World.{World, Inode}
use pagealignfs.Effect
use pagealignfs.Effect.{done, call, modify, gets, asks}
use pagealignfs.Effect.Fallible
use pagealignfs.Effect.Fallible.{lift, log_if_error}
use pagealignfs.Effect.Returns.{Returns, returns}
use pagealignfs.Syscalls.Errors.{errno_result, errno_fail, checked_value}
use pagealignfs.Syscalls.Files.{fcntl}
use pagealignfs.Inode.{get_inode}
use pagealignfs.Request
use pagealignfs.Request.{
  reply_errno, send, send_to, clear, destroy_pending, reply_failure_and_log_if_not_ok,
  reply_failure, answer_failure, failure_errno, errno_or_code,
}
use pagealignfs.Fs.Locks.{set_lk}
use pagealignfs.Callbacks.{run_callback, run_op, called}
use pagealignfs.Callbacks.Replying.{replying_failure, checked, begin}
use pagealignfs.Callbacks.Table.{Callback}

-- The lock that the handler asks the kernel for.
abbrev pub lock_call : Inode → (sleep : Bool) → Flock → Call
lock_call i sleep lock = Call.fcntl i.fd.fd (if sleep then f_setlkw else f_setlk) lock

-- Where the kernel refuses the fcntl lock that SetLk asks for on the descriptor of the inode, with an
-- errno that is not 0, fits an int, makes a failing status and has no name or one that the table
-- lists with this number, the callback, which was given a fuse_file_info, returns: it has made that
-- call and sent one reply, which is this errno, to its request; no request is pending, and nothing
-- else of the state differs.
pub setlk-refused :
    (req ino : ℕ) (fi : FileInfo) (lock : Flock) (sleep : Bool) (i : Inode) (n : ℤ) (e : Env)
    (w : World)
    → StatusLaws e
    → get_inode ino e (record w { req = some req }) ≡ done i (record w { req = some req })
    → eqb_ℤ (e.answer w.trace (lock_call i sleep lock)).rc minus_one ≡ true
    → (e.answer w.trace (lock_call i sleep lock)).errno ≡ n
    → (e.errno_to_status n (text "fcntl")).code ≢ StatusCode.k_ok
    → n ≢ pos 0
    → IsInt n
    → IsRecoverable e n
    → Returns
        (λ _ w'.
          (refused : Answer) × (replied : Answer) × (w' ≡ record w {
            trace =
                (record { call = Call.fuse_reply req (Reply.err n); answer = replied })
                ∷ (record { call = lock_call i sleep lock; answer = refused })
                ∷ w.trace;
            req = none;
          }))
        (run_callback req (Callback.setlk ino (some fi) lock sleep) e w)
unfolding run_callback run_op called checked replying_failure begin modify set_lk fcntl
    checked_value call gets lift Fallible.◌>>=◌ Effect.◌>>=◌ Effect.pure Fallible.pure
    Fallible.continue Request.destroy destroy_pending log_if_error reply_errno send send_to clear
    reply_failure_and_log_if_not_ok errno_result asks Fallible.return errno_fail errno_to_status
    reply_failure answer_failure failure_errno errno_or_code Fallible.attempt Fallible.fail
setlk-refused req ino fi lock sleep i n e w laws reached refused errno fails nonzero int found =
    let back = errno_round_trip laws n (text "fcntl") fails nonzero int found in
    let failing : is_ok (errno_to_status e n (text "fcntl")).code ≡ false =
      rw
        (laws.code-set_payload (e.errno_to_status n (text "fcntl")) errno_type_url
          (errno_to_error_name e n))
        (is_ok-false _ fails) in
    rw (reached, refused, errno, failing, failing, back) (returns (_, _, refl))
