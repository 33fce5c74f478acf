-- ===== src/Callbacks/OneReply.antt =====
-- Each request is answered exactly once, whatever the handler does.
use pagealignfs.Prelude.{ℕ, ◌+◌, ◌≡◌, refl, Option, none, some, arith, Bool-cases, inl, inr}
use pagealignfs.Prelude.Int.{ℤ, pos}
use pagealignfs.System.{Env}
use pagealignfs.System.Types.{Status}
use pagealignfs.System.Constants.{ecomm}
use pagealignfs.World.{World}
use pagealignfs.Status.{StatusOr, ok, err, is_ok}
use pagealignfs.Effect
use pagealignfs.Effect.{M, call, modify}
use pagealignfs.Effect.Fallible
use pagealignfs.Effect.Fallible.{E, log_if_error}
use pagealignfs.Effect.Keeps.{
  Keeps, Holds, holds, none_aborted, Leads, Leads-then, Leads-lift_then, Leads-weaken, Keeps-Leads,
  keeps_rules,
}
use pagealignfs.Request
use pagealignfs.Request.{
  send, clear, reply_errno, reply_none, send_none, answer_failure, failure_errno, reply_failure,
  reply_failure_and_log_if_not_ok, reply_always_and_log_if_not_ok,
}
use pagealignfs.Callbacks.Table.{Callback}
use pagealignfs.Callbacks.Owed.{replies, Owed, Settled, Settled-Owed, send-Settled, state-Owed}
use pagealignfs.Callbacks.{run_op, run_callback}
use pagealignfs.Callbacks.Class.{FuseOps}
use pagealignfs.Callbacks.LowLevel.{as_fuse_low_level_ops}
use pagealignfs.Callbacks.Handlers.{HandlersKeep}
use pagealignfs.Callbacks.PageAlign.{page_align_fs-HandlersKeep}
use pagealignfs.Callbacks.Serving.{Serves, run_op-Leads}
use pagealignfs.Fs.Class.{page_align_fs}
use pagealignfs.Callbacks.Replying.{begin, replying_failure, replying_always, replying_none}

module _ (n : ℕ) where
  reply_errno-Settled : (errnum : ℤ) → Leads (Owed n) (Settled n) (reply_errno errnum)
  unfolding reply_errno
  reply_errno-Settled errnum = send-Settled n _ _

  log-Settled :
      (m : E (Unit {0}))
      → Leads (Owed n) (Settled n) m
      → Leads (Owed n) (Settled n) (log_if_error m)
  unfolding log_if_error
  log-Settled m km = Leads-then m _ km (λ r. Keeps-Leads _ (search keeps_rules))

  clear-Settled : Leads (Settled n) (Settled n) clear
  unfolding clear modify
  clear-Settled = record { at = λ e w p. holds (p.0, refl) }

  answer_failure-Settled :
      (status : Status) (e : Env) (w : World) (req : Option ℕ)
      → w.req ≡ req
      → Owed n w
      → Holds (λ _ w'. Settled n w') (answer_failure status req e w)
  unfolding answer_failure Fallible.attempt Fallible.pure Effect.pure
  answer_failure-Settled status e w none h p = let q = (rw h at p) in holds (omega arith, h)
  answer_failure-Settled status e w (some req) h p =
      (Leads-lift_then (failure_errno status) _ (Keeps-Leads _ (search keeps_rules)) λ errnum.
          Leads-lift_then (reply_errno errnum) _ (reply_errno-Settled errnum)
            λ st. Leads-lift_then clear _ clear-Settled λ _. Keeps-Leads _ (search keeps_rules)).at
        e w p

  reply_failure-Settled : (status : Status) → Leads (Owed n) (Settled n) (reply_failure status)
  unfolding reply_failure Effect.abort Effect.gets Fallible.lift Fallible.◌>>=◌ Effect.◌>>=◌
      Effect.pure
  reply_failure-Settled status = record {
    at = λ e w p. elim (Bool-cases (is_ok status.code)) [
      | inl yes' ↦ rw yes' none_aborted
      | inr no' ↦ rw no' (answer_failure-Settled status e w w.req refl p)
    ];
  }

  replied_failure-Owed :
      (r : StatusOr (Unit {0})) → Leads (Owed n) (Owed n) (reply_failure_and_log_if_not_ok r)
  unfolding reply_failure_and_log_if_not_ok
  replied_failure-Owed (ok _) = Keeps-Leads _ (search keeps_rules)
  replied_failure-Owed (err st) =
      Leads-weaken _ (log-Settled _ (reply_failure-Settled st)) (λ w p. p) (Settled-Owed n)

  replied_always-Owed :
      (r : StatusOr (Unit {0})) → Leads (Owed n) (Owed n) (reply_always_and_log_if_not_ok r)
  unfolding reply_always_and_log_if_not_ok
  replied_always-Owed (ok _) =
      Leads-weaken _ (log-Settled _ (reply_errno-Settled (pos 0))) (λ w p. p) (Settled-Owed n)
  replied_always-Owed (err st) =
      Leads-weaken _ (log-Settled _ (reply_failure-Settled st)) (λ w p. p) (Settled-Owed n)

  send_none-Settled :
      (e : Env) (w : World) (req : Option ℕ)
      → w.req ≡ req
      → Owed n w
      → Holds (λ _ w'. Settled n w') (send_none req e w)
  unfolding send_none call modify Effect.◌>>=◌ Effect.pure
  send_none-Settled e w none h p = let q = (rw h at p) in holds (omega arith, h)
  send_none-Settled e w (some req) h p = let q = (rw h at p) in holds (omega arith, refl)

  reply_none-Settled : Leads (Owed n) (Settled n) reply_none
  unfolding reply_none Effect.gets Effect.◌>>=◌
  reply_none-Settled = record { at = λ e w p. send_none-Settled e w w.req refl p }

  destroy_pending-Settled :
      (e : Env) (w : World) (req : Option ℕ)
      → w.req ≡ req
      → Owed n w
      → Holds (λ _ w'. Settled n w') (Request.destroy_pending req e w)
  unfolding Request.destroy_pending Effect.pure
  destroy_pending-Settled e w none h p = let q = (rw h at p) in holds (omega arith, h)
  destroy_pending-Settled e w (some req) h p = (log-Settled _ (reply_errno-Settled ecomm)).at e w p

  destroy-Settled : Leads (Owed n) (Settled n) Request.destroy
  unfolding Request.destroy Effect.gets Effect.◌>>=◌
  destroy-Settled = record { at = λ e w p. destroy_pending-Settled e w w.req refl p }

module _ (n : ℕ) where
  begin-Owed : (req : ℕ) → Leads (Settled n) (Owed (n + 1)) (begin req)
  unfolding begin modify
  begin-Owed req = record { at = λ e w p. holds (omega arith) }

  module _ (req : ℕ) (handler : E (Unit {0})) (kh : Keeps (Owed (n + 1)) handler) where
    replying_failure-Settled : Leads (Settled n) (Settled (n + 1)) (replying_failure req handler)
    unfolding replying_failure
    replying_failure-Settled =
        Leads-then _ _
          (Leads-then _ _ (begin-Owed req)
            λ _. Leads-then _ _ (Keeps-Leads handler kh) (replied_failure-Owed (n + 1)))
          (λ _. destroy-Settled (n + 1))

    replying_always-Settled : Leads (Settled n) (Settled (n + 1)) (replying_always req handler)
    unfolding replying_always
    replying_always-Settled =
        Leads-then _ _
          (Leads-then _ _ (begin-Owed req)
            λ _. Leads-then _ _ (Keeps-Leads handler kh) (replied_always-Owed (n + 1)))
          (λ _. destroy-Settled (n + 1))

    replying_none-Settled : Leads (Settled n) (Settled (n + 1)) (replying_none req handler)
    unfolding replying_none
    replying_none-Settled =
        Leads-then _ _
          (Leads-then _ _
            (Leads-then _ _ (begin-Owed req) λ _. Keeps-Leads _ (search (keeps_rules, kh)))
            (λ _. reply_none-Settled (n + 1)))
          (λ _. Leads-weaken _ (destroy-Settled (n + 1)) (Settled-Owed (n + 1)) (λ w p. p))

  serves-Settled : (req : ℕ) → Serves req (Settled n) (Settled (n + 1)) (Owed (n + 1))
  serves-Settled req = record {
    at_failure = replying_failure-Settled req;
    at_always = replying_always-Settled req;
    at_none = replying_none-Settled req;
  }

-- Of any class T whose operations reply through the FuseRequest alone (none of them changes the sum
-- of the replies that were sent and of the pending request), every callback of the table of T that
-- returns has sent exactly one reply more, and leaves no request pending.
pub run_op-one_reply :
    (t : FuseOps)
    → ((n : ℕ) → HandlersKeep (Owed n) t)
    → (req : ℕ) (c : Callback) (e : Env) (w : World) → w.req ≡ none
    → Holds
        (λ _ w'. (replies w'.trace ≡ replies w.trace + 1) × (w'.req ≡ none))
        (run_op (as_fuse_low_level_ops t) req c e w)
run_op-one_reply t keep req c e w idle =
    let n = replies w.trace in
    (run_op-Leads (serves-Settled n req) t (keep (n + 1)) c).at e w (refl, idle)

-- Every callback that returns, for whatever request and environment, has sent exactly one reply
-- more, and leaves no request pending.
pub run_callback-one_reply :
    (req : ℕ) (c : Callback) (e : Env) (w : World)
    → w.req ≡ none
    → Holds
        (λ _ w'. (replies w'.trace ≡ replies w.trace + 1) × (w'.req ≡ none))
        (run_callback req c e w)
unfolding run_callback
run_callback-one_reply req c e w idle =
    run_op-one_reply page_align_fs (λ n. page_align_fs-HandlersKeep (state-Owed n)) req c e w idle
