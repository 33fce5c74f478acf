-- ===== src/Callbacks/Returning.antt =====
-- How a callback of pafs/fuse_ops.h ends, by how its handler ends.
use pagealignfs.Prelude.{ℕ, Option, none, some}
use pagealignfs.Prelude.Int.{ℤ}
use pagealignfs.System.Types.{Status}
use pagealignfs.World.{World}
use pagealignfs.Status.{StatusOr, ok, err}
use pagealignfs.Effect
use pagealignfs.Effect.{M, modify}
use pagealignfs.Effect.Fallible
use pagealignfs.Effect.Fallible.{E, log_if_error}
use pagealignfs.Effect.Returns.{returns, Returns-bind, Quiet-pure}
use pagealignfs.Effect.Ensures.{IsTraceless}
use pagealignfs.Effect.Proper.{
  Proper, Stays, IsProper, Ensures-Stays, Stays-Quiet, Stays-bind, Stays-log_if_error,
  Proper-attempt, proper_rules,
}
use pagealignfs.Request
use pagealignfs.Request.{
  clear, reply_errno, failure_errno, answer_failure, reply_failure, reply_failure_and_log_if_not_ok,
  reply_always_and_log_if_not_ok,
}
use pagealignfs.Request.Kept.{IsRequestless, clear-Kept, reply_none-Kept, destroy-Kept}
use pagealignfs.Request.Proper.{send-Proper}
use pagealignfs.Callbacks.Replying.{begin, replying_failure, replying_always, replying_none}

module _ {P : World → Type 0} (traceless : IsTraceless P) (requestless : IsRequestless P) where
  begin-Stays : (req : ℕ) → Stays P (begin req)
  unfolding begin modify
  begin-Stays req = record { at = λ e w p. returns (requestless w (some req) p) }

  reply_errno-Proper : (n : ℤ) → Proper P (reply_errno n)
  unfolding reply_errno
  reply_errno-Proper n = send-Proper traceless requestless _ _

  clear-Stays : Stays P clear
  clear-Stays = Ensures-Stays _ (clear-Kept traceless requestless)

  answer_failure-Proper : (st : Status) (req : Option ℕ) → Proper P (answer_failure st req)
  unfolding answer_failure failure_errno Fallible.return
  answer_failure-Proper st none = search proper_rules
  answer_failure-Proper st (some req) =
      search (proper_rules, traceless, Proper-attempt, reply_errno-Proper, clear-Stays)

  -- The CHECK of ReplyFailure holds.
  reply_failure-Proper :
      (st : Status) → IsProper {A = Unit {0}} (err st) → Proper P (reply_failure st)
  unfolding reply_failure
  reply_failure-Proper st bad = rw bad (search (proper_rules, answer_failure-Proper))

  replied_failure-Stays :
      (r : StatusOr (Unit {0})) → IsProper r → Stays P (reply_failure_and_log_if_not_ok r)
  unfolding reply_failure_and_log_if_not_ok
  replied_failure-Stays (ok _) h = Stays-Quiet _ traceless (Quiet-pure tt)
  replied_failure-Stays (err st) h = Stays-log_if_error _ (reply_failure-Proper st h)

  replied_always-Stays :
      (r : StatusOr (Unit {0})) → IsProper r → Stays P (reply_always_and_log_if_not_ok r)
  unfolding reply_always_and_log_if_not_ok
  replied_always-Stays (ok _) h = Stays-log_if_error _ (reply_errno-Proper _)
  replied_always-Stays (err st) h = Stays-log_if_error _ (reply_failure-Proper st h)

  destroy-Stays : Stays P Request.destroy
  destroy-Stays = Ensures-Stays _ (destroy-Kept traceless requestless)

  module _ (req : ℕ) (handler : E (Unit {0})) (kh : Proper P handler) where
    pub replying_failure-Stays : Stays P (replying_failure req handler)
    unfolding replying_failure Effect.◌>>=◌
    replying_failure-Stays =
        Stays-bind _ _
          (Stays-bind _ _ (begin-Stays req) λ _. record {
            at = λ e w p.
                Returns-bind (kh.at e w p) λ r w' (h, p'). (replied_failure-Stays r h).at e w' p';
          })
          λ _. destroy-Stays

    pub replying_always-Stays : Stays P (replying_always req handler)
    unfolding replying_always Effect.◌>>=◌
    replying_always-Stays =
        Stays-bind _ _
          (Stays-bind _ _ (begin-Stays req) λ _. record {
            at = λ e w p.
                Returns-bind (kh.at e w p) λ r w' (h, p'). (replied_always-Stays r h).at e w' p';
          })
          λ _. destroy-Stays

    pub replying_none-Stays : Stays P (replying_none req handler)
    unfolding replying_none
    replying_none-Stays =
        Stays-bind _ _
          (Stays-bind _ _ (Stays-bind _ _ (begin-Stays req) λ _. Stays-log_if_error handler kh)
            λ _. Ensures-Stays _ (reply_none-Kept traceless requestless))
          λ _. destroy-Stays
