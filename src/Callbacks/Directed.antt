-- ===== src/Callbacks/Directed.antt =====
-- Whom the replies of a callback go to.
use pagealignfs.Prelude.{
  ℕ, ◌+◌, ◌≡◌, refl, false, Option, none, some, List, [], ◌∷◌, ◌==◌, ◌&&◌, not, arith, count_if,
  ◌⊎◌, inl, inr,
}
use pagealignfs.Prelude.Int.{negate}
use pagealignfs.Prelude.Bytes.{Text}
use pagealignfs.System.{Env, Event}
use pagealignfs.System.Calls.{Call, Reply}
use pagealignfs.World.{World}
use pagealignfs.Effect
use pagealignfs.Effect.{call, modify}
use pagealignfs.Effect.Fallible
use pagealignfs.Effect.Keeps.{Keeps, Holds, holds, Holds-both}
use pagealignfs.Syscalls.Keeps.{CallsKeep, is_reply, errno_result-Keeps}
use pagealignfs.Request.{send, send_to, reply_none, send_none, clear}
use pagealignfs.Fs.Keeps.Framed.{Stateless, stateless_state}
use pagealignfs.Callbacks.{run_callback}
use pagealignfs.Callbacks.Table.{Callback}
use pagealignfs.Callbacks.Owed.{replies}
use pagealignfs.Callbacks.OneReply.{run_callback-one_reply}
use pagealignfs.Callbacks.Keeps.{RequestKeeps, run_callback-Keeps}

-- The request that a call replies to.
abbrev receiver : Call → ℕ
receiver (Call.fuse_reply req r) = req
receiver _ = 0

abbrev pub replies_to : ℕ → List Event → ℕ
replies_to req = count_if (λ ev. is_reply ev.call && receiver ev.call == req)

abbrev replies_to_others : ℕ → List Event → ℕ
replies_to_others req = count_if (λ ev. is_reply ev.call && not (receiver ev.call == req))

replies-split : (req : ℕ) (t : List Event) → replies t ≡ replies_to req t + replies_to_others req t
replies-split req [] = refl
replies-split req (ev ∷ t) = ground (arith, replies-split req t)

-- As many replies went to other requests as before, and no other request is pending.
abbrev Directed : ℕ → ℕ → World → Type 0
Directed req n w = (replies_to_others req w.trace ≡ n) × ((w.req ≡ none) ⊎ (w.req ≡ some req))

module _ (req n : ℕ) where
  call-Directed : (c : Call) → is_reply c ≡ false → Keeps (Directed req n) (call c)
  unfolding call
  call-Directed c h = record { at = λ e w (p, own). holds (rw h (omega arith), own) }

  calls-Directed : CallsKeep (Directed req n)
  calls-Directed = record { at_call = λ c h _. call-Directed c h }

  send_to-Directed :
      (r : Reply) (name : Text) (e : Env) (w : World) (pending : Option ℕ)
      → replies_to_others req w.trace ≡ n
      → w.req ≡ pending
      → (pending ≡ none) ⊎ (pending ≡ some req)
      → Holds (λ _ w'. Directed req n w') (send_to r name pending e w)
  unfolding send_to call modify clear Fallible.lift Fallible.◌>>=◌ Effect.◌>>=◌ Fallible.pure
      Effect.pure
  send_to-Directed r name e w none p h own = holds (p, inl h)
  send_to-Directed r name e w (some q) p h own =
      (errno_result-Keeps {P = Directed req n} (negate (e.answer w.trace (Call.fuse_reply q r)).rc)
          name).at
        e
        (record w {
          trace =
              (record {
                call = Call.fuse_reply q r;
                answer = e.answer w.trace (Call.fuse_reply q r);
              })
              ∷ w.trace;
          req = none;
        })
        (ground arith, inl refl)

  send-Directed : (r : Reply) (name : Text) → Keeps (Directed req n) (send r name)
  unfolding send Effect.gets Fallible.lift Fallible.◌>>=◌ Effect.◌>>=◌ Effect.pure
  send-Directed r name = record {
    at = λ e w (p, own). send_to-Directed r name e w w.req p refl own;
  }

  send_none-Directed :
      (e : Env) (w : World) (pending : Option ℕ)
      → replies_to_others req w.trace ≡ n
      → w.req ≡ pending
      → (pending ≡ none) ⊎ (pending ≡ some req)
      → Holds (λ _ w'. Directed req n w') (send_none pending e w)
  unfolding send_none call modify clear Effect.◌>>=◌ Effect.pure
  send_none-Directed e w none p h own = holds (p, inl h)
  send_none-Directed e w (some q) p h own = holds (ground arith, inl refl)

  reply_none-Directed : Keeps (Directed req n) reply_none
  unfolding reply_none Effect.gets Effect.◌>>=◌
  reply_none-Directed = record { at = λ e w (p, own). send_none-Directed e w w.req p refl own }

  stateless-Directed : Stateless (Directed req n)
  stateless-Directed = record {
    framed = record { at_state = λ w root inodes p. p; at_next = λ w p. p };
    at_directories = λ w directories p. p;
  }

  requests-Directed : RequestKeeps req (Directed req n)
  requests-Directed = record {
    state = stateless_state calls-Directed stateless-Directed send-Directed;
    at_begin = λ w (p, _). (p, inr refl);
    at_clear = λ w (p, _). (p, inl refl);
    at_none = reply_none-Directed;
  }

-- Every callback that returns, for whatever request and environment, has sent exactly one reply
-- more, which is to its request, and leaves no request pending.
pub run_callback-replied :
    (req : ℕ) (c : Callback) (e : Env) (w : World)
    → w.req ≡ none
    → Holds
        (λ _ w'.
          (replies w'.trace ≡ replies w.trace + 1)
          × (replies_to req w'.trace ≡ replies_to req w.trace + 1)
          × (w'.req ≡ none))
        (run_callback req c e w)
run_callback-replied req c e w idle =
    let n = replies_to_others req w.trace in
    Holds-both (run_callback-one_reply req c e w idle)
      ((run_callback-Keeps (requests-Directed req n) c).at e w (refl, inl idle))
      λ _ w' (one, idle') (others, _). (
        one,
        omega (arith, one, others, replies-split req w.trace, replies-split req w'.trace),
        idle',
      )
