-- ===== src/Request/Proper.antt =====
-- How calls and the replies of FuseRequest (pafs/fuse.cc) end, and with which status.
use pagealignfs.Prelude.{ℕ, ◌≡◌, refl, ap, Option, none, some}
use pagealignfs.Prelude.Int.{ℤ, negate}
use pagealignfs.Prelude.Bytes.{Text}
use pagealignfs.System.{Env, Answer}
use pagealignfs.System.Calls.{Call, Reply}
use pagealignfs.World.{World, FileDescriptor}
use pagealignfs.Status.{StatusOr, ok, err}
use pagealignfs.Effect
use pagealignfs.Effect.{M, gets, call, modify}
use pagealignfs.Effect.Fallible
use pagealignfs.Effect.Fallible.{E}
use pagealignfs.Effect.Returns.{Returns, returns, Returns-bind}
use pagealignfs.Effect.Ensures.{IsTraceless}
use pagealignfs.Effect.Proper.{Proper, Stays, IsProper, Ensures-Stays, Stays-Quiet, proper_rules}
use pagealignfs.Syscalls.Errors.{errno_result, errno_fail, check, checked_value}
use pagealignfs.Inode.Quiet.{destroy_fd-Quiet}
use pagealignfs.Resource.Descriptor.{with_fd, end_scope}
use pagealignfs.Request.{send, send_to, clear}
use pagealignfs.Request.Kept.{IsRequestless, clear-Kept}

module _ {P : World → Type 0} (traceless : IsTraceless P) where
  pub errno_result-Proper : (n : ℤ) (name : Text) → Proper P (errno_result n name)
  unfolding errno_result
  errno_result-Proper n name = search (proper_rules, traceless)

  pub errno_fail-Proper : {A : Type 0} (n : ℤ) (name : Text) → Proper P (errno_fail {A = A} n name)
  unfolding errno_fail
  errno_fail-Proper n name = search (proper_rules, traceless)

  pub check-Proper : (a : Answer) (name : Text) → Proper P (check a name)
  unfolding check
  check-Proper a name = search (proper_rules, errno_result-Proper)

  pub checked_value-Proper :
      {A : Type 0} (a : Answer) (name : Text) (value : A) → Proper P (checked_value a name value)
  unfolding checked_value
  checked_value-Proper a name value = search (proper_rules, errno_fail-Proper)

  module _ {A : Type 0} where
    end_scope-Proper :
        (fd : FileDescriptor) (r : StatusOr (A × FileDescriptor))
        → IsProper r
        → Proper P (end_scope fd r)
    unfolding end_scope Effect.◌>>=◌ Effect.pure
    end_scope-Proper fd (ok (a, left)) h = record {
      at = λ e w p.
          Returns-bind ((Stays-Quiet _ traceless (destroy_fd-Quiet left)).at e w p)
            λ _ w' p'. returns (tt, p');
    }
    end_scope-Proper fd (err st) h = record {
      at = λ e w p.
          Returns-bind ((Stays-Quiet _ traceless (destroy_fd-Quiet fd)).at e w p)
            λ _ w' p'. returns (h, p');
    }

    -- The scope of a descriptor: the destructor at its end changes nothing.
    pub with_fd-Proper :
        (fd : FileDescriptor) (body : E (A × FileDescriptor))
        → Proper P body
        → Proper P (with_fd fd body)
    unfolding with_fd Effect.◌>>=◌
    with_fd-Proper fd body kb = record {
      at = λ e w p. Returns-bind (kb.at e w p) λ r w' (h, p'). (end_scope-Proper fd r h).at e w' p';
    }

  module _ (requestless : IsRequestless P) where
    clear-Stays : Stays P clear
    clear-Stays = Ensures-Stays _ (clear-Kept traceless requestless)

    send_to-Proper : (r : Reply) (name : Text) (req : Option ℕ) → Proper P (send_to r name req)
    unfolding send_to
    send_to-Proper r name none = search proper_rules
    send_to-Proper r name (some req) =
        search (proper_rules, traceless, errno_result-Proper, clear-Stays)

    pub send-Proper : (r : Reply) (name : Text) → Proper P (send r name)
    unfolding send
    send-Proper r name = search (proper_rules, send_to-Proper)

-- A reply to a pending request always returns, and nothing is pending any more.
module _ (r : Reply) (name : Text) (req : ℕ) where
  pub send-answered :
      (e : Env) (w : World)
      → w.req ≡ some req
      → Returns
          (λ s w'. IsProper s × (w' ≡ record w { trace = w'.trace; req = none }))
          (send r name e w)
  unfolding send send_to clear call modify gets Fallible.lift Fallible.◌>>=◌ Effect.◌>>=◌
      Effect.pure Fallible.continue
  send-answered e w pending =
      let a = e.answer w.trace (Call.fuse_reply req r) in
      let Sent : World → Type 0 = λ v. v ≡ record w { trace = v.trace; req = none } in
      rw pending (
        (errno_result-Proper {P = Sent} (λ v t h. ap {A = World} (λ u. record u { trace = t }) h)
            (negate a.rc) name).at
          e _ refl)
