-- ===== src/Callbacks/Keeps.antt =====
-- An invariant that the handlers keep is kept by every callback.
use pagealignfs.Prelude.{ℕ, Option, none, some, Option-cases, inl, inr}
use pagealignfs.Prelude.Int.{ℤ}
use pagealignfs.System.Types.{Status}
use pagealignfs.World.{World}
use pagealignfs.Status.{StatusOr, ok, err}
use pagealignfs.Effect.Fallible.{E}
use pagealignfs.Effect.Keeps.{
  Keeps, Keeps-pure, Keeps-gets, Keeps-Leads, Leads-Keeps, Keeps-bind, Keeps-log_if_error,
  keeps_rules,
}
use pagealignfs.Request
use pagealignfs.Request.{
  reply_failure, reply_errno, reply_none, send_none, clear, answer_failure, failure_errno,
  reply_failure_and_log_if_not_ok, reply_always_and_log_if_not_ok, destroy_pending,
}
use pagealignfs.Callbacks.{run_op, run_callback}
use pagealignfs.Callbacks.Class.{FuseOps}
use pagealignfs.Callbacks.LowLevel.{as_fuse_low_level_ops}
use pagealignfs.Callbacks.Handlers.{HandlersKeep}
use pagealignfs.Callbacks.PageAlign.{page_align_fs-HandlersKeep}
use pagealignfs.Callbacks.Serving.{Serves, run_op-Leads}
use pagealignfs.Fs.Class.{page_align_fs}
use pagealignfs.Callbacks.Replying.{begin, replying_failure, replying_always, replying_none}
use pagealignfs.Callbacks.Table.{Callback}
use pagealignfs.Effect.{call, modify}
use pagealignfs.Effect.Keeps.{holds}
use pagealignfs.System.Calls.{Call, Reply}
use pagealignfs.Fs.Keeps.{StateKeeps}

-- A reply of nothing keeps what its call and the clearing of the request keep.
pub reply_none-Keeps :
    {P : World → Type 0}
    → ((req : ℕ) → Keeps P (call (Call.fuse_reply req Reply.none)))
    → ((w : World) → P w → P (record w { req = none }))
    → Keeps P reply_none
unfolding reply_none send_none clear modify
reply_none-Keeps called cleared = Keeps-bind _ _ (Keeps-gets _) λ req. elim (Option-cases req) [
  | inl idle ↦ rw idle (Keeps-pure tt)
  | inr (r, pending) ↦
      rw pending (Keeps-bind _ _ (called r) λ _. record { at = λ e w p. holds (cleared w p) })
]

-- Beside what the handlers need: the request may come and go, and a reply of nothing may be sent.
pub record RequestKeeps (req : ℕ) (P : World → Type 0) : Type 0 where
  pub state : StateKeeps P
  pub at_begin : (w : World) → P w → P (record w { req = some req })
  pub at_clear : (w : World) → P w → P (record w { req = none })
  pub at_none : Keeps P reply_none

module _ {req : ℕ} {P : World → Type 0} (k : RequestKeeps req P) where
  clear-Keeps : Keeps P clear
  unfolding clear modify
  clear-Keeps = record { at = λ e w p. holds (k.at_clear w p) }

  begin-Keeps : Keeps P (begin req)
  unfolding begin modify
  begin-Keeps = record { at = λ e w p. holds (k.at_begin w p) }

  reply_errno-Keeps : (n : ℤ) → Keeps P (reply_errno n)
  unfolding reply_errno
  reply_errno-Keeps n = k.state.at_send _ _

  answer_failure-Keeps : (st : Status) (req : Option ℕ) → Keeps P (answer_failure st req)
  unfolding answer_failure failure_errno
  answer_failure-Keeps st none = search keeps_rules
  answer_failure-Keeps st (some req) = search (keeps_rules, reply_errno-Keeps, clear-Keeps) depth 12

  reply_failure-Keeps : (st : Status) → Keeps P (reply_failure st)
  unfolding reply_failure
  reply_failure-Keeps st = search (keeps_rules, answer_failure-Keeps)

  replied_failure-Keeps : (r : StatusOr (Unit {0})) → Keeps P (reply_failure_and_log_if_not_ok r)
  unfolding reply_failure_and_log_if_not_ok
  replied_failure-Keeps (ok _) = search keeps_rules
  replied_failure-Keeps (err st) = search (keeps_rules, reply_failure-Keeps)

  replied_always-Keeps : (r : StatusOr (Unit {0})) → Keeps P (reply_always_and_log_if_not_ok r)
  unfolding reply_always_and_log_if_not_ok
  replied_always-Keeps (ok _) = search (keeps_rules, reply_errno-Keeps)
  replied_always-Keeps (err st) = search (keeps_rules, reply_failure-Keeps)

  destroy_pending-Keeps : (req : Option ℕ) → Keeps P (destroy_pending req)
  unfolding destroy_pending
  destroy_pending-Keeps none = search keeps_rules
  destroy_pending-Keeps (some req) = search (keeps_rules, reply_errno-Keeps)

  destroy-Keeps : Keeps P Request.destroy
  unfolding Request.destroy
  destroy-Keeps = search (keeps_rules, destroy_pending-Keeps)

  module _ (handler : E (Unit {0})) (kh : Keeps P handler) where
    replying_failure-Keeps : Keeps P (replying_failure req handler)
    unfolding replying_failure
    replying_failure-Keeps =
        Keeps-bind _ _
          (Keeps-bind _ _ begin-Keeps λ _. Keeps-bind handler _ kh replied_failure-Keeps)
          (λ _. destroy-Keeps)

    replying_always-Keeps : Keeps P (replying_always req handler)
    unfolding replying_always
    replying_always-Keeps =
        Keeps-bind _ _
          (Keeps-bind _ _ begin-Keeps λ _. Keeps-bind handler _ kh replied_always-Keeps)
          (λ _. destroy-Keeps)

    replying_none-Keeps : Keeps P (replying_none req handler)
    unfolding replying_none
    replying_none-Keeps =
        Keeps-bind _ _
          (Keeps-bind _ _ (Keeps-bind _ _ begin-Keeps λ _. Keeps-log_if_error handler kh)
            (λ _. k.at_none))
          (λ _. destroy-Keeps)

  serves-Keeps : Serves req P P P
  serves-Keeps = record {
    at_failure = λ handler kh. Keeps-Leads _ (replying_failure-Keeps handler kh);
    at_always = λ handler kh. Keeps-Leads _ (replying_always-Keeps handler kh);
    at_none = λ handler kh. Keeps-Leads _ (replying_none-Keeps handler kh);
  }

  -- The callbacks of any class keep what its operations keep.
  run_op-Keeps :
      (t : FuseOps)
      → HandlersKeep P t
      → (c : Callback) → Keeps P (run_op (as_fuse_low_level_ops t) req c)
  run_op-Keeps t kt c = Leads-Keeps _ (run_op-Leads serves-Keeps t kt c)

  pub run_callback-Keeps : (c : Callback) → Keeps P (run_callback req c)
  unfolding run_callback
  run_callback-Keeps = run_op-Keeps page_align_fs (page_align_fs-HandlersKeep k.state)
