-- ===== src/Request/Kept.antt =====
-- What a reply leaves alone: every predicate that reads neither the trace nor the pending request.
use pagealignfs.Prelude.{ℕ, Option, none, some}
use pagealignfs.Prelude.Bytes.{Text}
use pagealignfs.System.Calls.{Reply}
use pagealignfs.World.{World}
use pagealignfs.Effect.{M, modify}
use pagealignfs.Effect.Fallible.{log_if_error}
use pagealignfs.Effect.Returns.{returns, Quiet, Quiet-call, Quiet-pure, Quiet-pure_ok}
use pagealignfs.Effect.Ensures.{
  Ensures, Ensures-bind, Ensures-lift_then, Ensures-gets, Quiet-Ensures, IsTraceless,
}
use pagealignfs.Syscalls.Quiet.{errno_result-Quiet}
use pagealignfs.Request
use pagealignfs.Request.{clear, send_to, send, reply_errno, send_none, reply_none, destroy_pending}

-- A predicate that does not read the pending request.
abbrev pub IsRequestless : (World → Type 0) → Type 0
IsRequestless P = (w : World) (q : Option ℕ) → P w → P (record w { req = q })

module _ {P : World → Type 0} (traceless : IsTraceless P) (requestless : IsRequestless P) where
  Quiet-Kept : {A : Type 0} (m : M A) → Quiet m → Ensures P (λ _. P) m
  Quiet-Kept m km = Quiet-Ensures m traceless km

  pub clear-Kept : Ensures P (λ _. P) clear
  unfolding clear modify
  clear-Kept = record { at = λ e w p. returns (requestless w none p) }

  send_to-Kept :
      (r : Reply) (name : Text) (req : Option ℕ) → Ensures P (λ _. P) (send_to r name req)
  unfolding send_to
  send_to-Kept r name none = Quiet-Kept _ (Quiet-pure_ok tt)
  send_to-Kept r name (some req) =
      Ensures-lift_then _ _ (Quiet-Kept _ (Quiet-call _))
        λ a. Ensures-lift_then _ _ clear-Kept λ _. Quiet-Kept _ (errno_result-Quiet _ _)

  pub send-Kept : (r : Reply) (name : Text) → Ensures P (λ _. P) (send r name)
  unfolding send
  send-Kept r name = Ensures-lift_then _ _ (Ensures-gets _) (send_to-Kept r name)

  send_none-Kept : (req : Option ℕ) → Ensures P (λ _. P) (send_none req)
  unfolding send_none
  send_none-Kept none = Quiet-Kept _ (Quiet-pure tt)
  send_none-Kept (some req) = Ensures-bind _ _ (Quiet-Kept _ (Quiet-call _)) λ _. clear-Kept

  pub reply_none-Kept : Ensures P (λ _. P) reply_none
  unfolding reply_none
  reply_none-Kept = Ensures-bind _ _ (Ensures-gets _) send_none-Kept

  destroy_pending-Kept : (req : Option ℕ) → Ensures P (λ _. P) (destroy_pending req)
  unfolding destroy_pending reply_errno log_if_error
  destroy_pending-Kept none = Quiet-Kept _ (Quiet-pure tt)
  destroy_pending-Kept (some req) =
      Ensures-bind _ _ (send-Kept _ _) λ _. Quiet-Kept _ (Quiet-pure tt)

  pub destroy-Kept : Ensures P (λ _. P) Request.destroy
  unfolding Request.destroy
  destroy-Kept = Ensures-bind _ _ (Ensures-gets _) destroy_pending-Kept
