-- ===== src/Callbacks/Replying.antt =====
-- How the callbacks of pafs/fuse_ops.h run a handler: the request is taken over, the reply follows
-- from the status, and the FuseRequest is destroyed at the end.
use pagealignfs.Prelude.{ℕ, Option, none, some}
use pagealignfs.Effect.{M, modify, abort, ◌>>=◌, ◌>>◌}
use pagealignfs.Effect.Fallible.{E, log_if_error}
use pagealignfs.Request
use pagealignfs.Request.{
  reply_failure_and_log_if_not_ok, reply_always_and_log_if_not_ok, reply_none,
}

-- FuseRequest fr(req)
unfoldable pub begin : ℕ → M (Unit {0})
begin req = modify λ w. record w { req = some req }

-- fr.ReplyFailureAndLogIfNotOk(handler), and ~FuseRequest
unfoldable pub replying_failure : ℕ → E (Unit {0}) → M (Unit {0})
unfolding begin reply_failure_and_log_if_not_ok Request.destroy
replying_failure req handler =
    begin req >> (handler >>= reply_failure_and_log_if_not_ok) >> Request.destroy

-- fr.ReplyAlwaysAndLogIfNotOk(handler), and ~FuseRequest
unfoldable pub replying_always : ℕ → E (Unit {0}) → M (Unit {0})
unfolding begin reply_always_and_log_if_not_ok Request.destroy
replying_always req handler =
    begin req >> (handler >>= reply_always_and_log_if_not_ok) >> Request.destroy

-- LOG_IF_ERROR(ERROR, handler), fr.ReplyNone(), and ~FuseRequest
unfoldable pub replying_none : ℕ → E (Unit {0}) → M (Unit {0})
unfolding begin reply_none Request.destroy
replying_none req handler = begin req >> log_if_error handler >> reply_none >> Request.destroy

-- CHECK_NE(p, nullptr), and then what the callback does with *p
unfoldable pub checked : {A : Type 0} → Option A → (A → M (Unit {0})) → M (Unit {0})
checked none run = abort
checked (some p) run = run p
