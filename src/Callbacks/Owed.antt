-- ===== src/Callbacks/Owed.antt =====
-- The library owes each request one reply: what the functions do to the count of replies.
use pagealignfs.Prelude.{ℕ, ◌+◌, ◌≡◌, refl, false, Option, none, some, List, ◌∷◌, arith, count_if}
use pagealignfs.Prelude.Int.{negate}
use pagealignfs.Prelude.Bytes.{Text}
use pagealignfs.System.{Env, Event}
use pagealignfs.System.Calls.{Call, Reply}
use pagealignfs.World.{World}
use pagealignfs.Effect
use pagealignfs.Effect.{M, Run, done, call, modify}
use pagealignfs.Effect.Fallible
use pagealignfs.Effect.Fallible.{E}
use pagealignfs.Effect.Keeps.{Keeps, Holds, holds, Leads, Leads-weaken, Leads-Keeps}
use pagealignfs.Syscalls.Keeps.{CallsKeep, is_reply, errno_result-Keeps}
use pagealignfs.Request.{send, send_to}
use pagealignfs.Fs.Keeps.Framed.{Stateless, stateless_state}
use pagealignfs.Fs.Keeps.{StateKeeps}

abbrev pub replies : List Event → ℕ
replies = count_if (λ ev. is_reply ev.call)

abbrev pub pending : Option ℕ → ℕ
pending none = 0
pending (some req) = 1

-- The replies that were sent, and the one that is still owed.
abbrev pub Owed : ℕ → World → Type 0
Owed n w = replies w.trace + pending w.req ≡ n

-- They are sent, and none is owed.
abbrev pub Settled : ℕ → World → Type 0
Settled n w = (replies w.trace ≡ n) × (w.req ≡ none)

module _ (n : ℕ) where
  call-Owed : (c : Call) → is_reply c ≡ false → Keeps (Owed n) (call c)
  unfolding call
  call-Owed c h = record { at = λ e w p. holds (rw h (omega arith)) }

  calls-Owed : CallsKeep (Owed n)
  calls-Owed = record { at_call = λ c h _. call-Owed c h }

  -- A reply that is sent is one that is no longer owed.
  send_to-Settled :
      (r : Reply) (name : Text) (e : Env) (w : World) (req : Option ℕ)
      → w.req ≡ req
      → replies w.trace + pending req ≡ n
      → Holds (λ _ w'. Settled n w') (send_to r name req e w)
  unfolding send_to call modify Fallible.lift Fallible.◌>>=◌ Effect.◌>>=◌ Fallible.pure Effect.pure
  send_to-Settled r name e w none h p = holds (omega arith, h)
  send_to-Settled r name e w (some req) h p =
      (errno_result-Keeps {P = Settled n} (negate (e.answer w.trace (Call.fuse_reply req r)).rc)
          name).at
        e
        (record w {
          trace =
              (record {
                call = Call.fuse_reply req r;
                answer = e.answer w.trace (Call.fuse_reply req r);
              })
              ∷ w.trace;
          req = none;
        })
        (omega arith, refl)

  pub send-Settled : (r : Reply) (name : Text) → Leads (Owed n) (Settled n) (send r name)
  unfolding send Effect.gets Fallible.lift Fallible.◌>>=◌ Effect.◌>>=◌ Effect.pure
  send-Settled r name = record { at = λ e w p. send_to-Settled r name e w w.req refl p }

  pub Settled-Owed : (w : World) → Settled n w → Owed n w
  Settled-Owed w (sent, idle) = rw idle (omega arith)

  send-Owed : (r : Reply) (name : Text) → Keeps (Owed n) (send r name)
  send-Owed r name = Leads-Keeps _ (Leads-weaken _ (send-Settled r name) (λ w p. p) Settled-Owed)

  stateless-Owed : Stateless (Owed n)
  stateless-Owed = record {
    framed = record { at_state = λ w root inodes p. p; at_next = λ w p. p };
    at_directories = λ w directories p. p;
  }

  pub state-Owed : StateKeeps (Owed n)
  state-Owed = stateless_state calls-Owed stateless-Owed send-Owed
