-- ===== src/Process/Scopes.antt =====
-- What the process holds of libfuse, read off the trace, and that it gives everything back: the
-- resources nest, and each is released once, the last one first.
use pagealignfs.Prelude.{
  ℕ, Bool, true, false, List, [], ◌∷◌, Option, none, some, ◌==◌, ◌≡◌, arith, if◌then◌else◌,
}
use pagealignfs.Prelude.Int.{pos, eqb_ℤ}
use pagealignfs.Prelude.Bytes.{Text}
use pagealignfs.System.{Event, Answer}
use pagealignfs.System.Calls.{Call, SessionCall, Reply}
use pagealignfs.World.{World, Entry}
use pagealignfs.Effect
use pagealignfs.Effect.{M, call, modify, done, and_then}
use pagealignfs.Effect.Fallible
use pagealignfs.Effect.Fallible.{E, lift, finally}
use pagealignfs.Effect.Keeps.{Keeps, holds, Keeps-bind, keeps_rules}
use pagealignfs.Effect.Gives.{Gives}
use pagealignfs.Syscalls.Keeps.{CallsKeep, is_session, syscall_rules}
use pagealignfs.Fs.Keeps.{StateKeeps, destroy_inode-Keeps}
use pagealignfs.Fs.Keeps.Framed.{Stateless, stateless_state}
use pagealignfs.Request.{send, send_to, clear}
use pagealignfs.Process.{invoke, destroy_rows, destroy_fs}

-- What is held: the arguments, the text of the mountpoint, a session, its signal handlers, its
-- mount, and a loop configuration.
pub data Scope : Type 0 where
  args mountpoint : Scope
  session handlers mounted : (session : ℕ) → Scope
  config : ℕ → Scope

unfoldable pub eqb_scope : Scope → Scope → Bool
eqb_scope args args = true
eqb_scope mountpoint mountpoint = true
eqb_scope (session p) (session q) = p == q
eqb_scope (handlers p) (handlers q) = p == q
eqb_scope (mounted p) (mounted q) = p == q
eqb_scope (config p) (config q) = p == q
eqb_scope _ _ = false

-- A release is in order only of what was acquired last.
unfoldable pub pop : Scope → List Scope → Option (List Scope)
unfolding eqb_scope
pop x [] = none
pop x (y ∷ s) = if eqb_scope x y then some s else none

-- The documented effect of a call of libfuse, with its answer, on what is held.
unfoldable pub after_session : SessionCall → Answer → List Scope → Option (List Scope)
unfolding pop
after_session SessionCall.parse_cmdline a s =
    some (if eqb_ℤ a.rc (pos 0) then mountpoint ∷ args ∷ s else args ∷ s)
after_session SessionCall.opt_free_args a s = pop args s
after_session SessionCall.free_mountpoint a s = pop mountpoint s
after_session SessionCall.new_session a s = some (if a.number == 0 then s else session a.number ∷ s)
after_session (SessionCall.destroy_session p) a s = pop (session p) s
after_session (SessionCall.set_signal_handlers p) a s =
    some (if eqb_ℤ a.rc (pos 0) then handlers p ∷ s else s)
after_session (SessionCall.remove_signal_handlers p) a s = pop (handlers p) s
after_session (SessionCall.mount p m) a s = some (if eqb_ℤ a.rc (pos 0) then mounted p ∷ s else s)
after_session (SessionCall.unmount p) a s = pop (mounted p) s
after_session SessionCall.cfg_create a s = some (if a.number == 0 then s else config a.number ∷ s)
after_session (SessionCall.cfg_destroy c) a s = pop (config c) s
after_session _ a s = some s

after_call : Call → Answer → List Scope → Option (List Scope)
unfolding after_session
after_call (Call.session c) a s = after_session c a s
after_call _ a s = some s

and_after : Option (List Scope) → Call → Answer → Option (List Scope)
unfolding after_call
and_after none c a = none
and_after (some s) c a = after_call c a s

-- What is held after the calls of a trace; `none` where a release was out of order.
unfoldable pub held : List Event → Option (List Scope)
unfolding and_after
held [] = some []
held (ev ∷ h) = and_after (held h) ev.call ev.answer

abbrev pub Open : List Scope → World → Type 0
Open s w = held w.trace ≡ some s

module _ (s : List Scope) where
  pub other_call-Open : (c : Call) → is_session c ≡ false → Keeps (Open s) (call c)
  unfolding call held
  other_call-Open (Call.session c) h = record { at = λ e w p. cc }
  other_call-Open _ h = record { at = λ e w p. holds (rw p) }

-- From holding `s` to holding `s'`, on every way out.
abbrev pub Moves : {A : Type 0} → List Scope → List Scope → M A → Type 0
Moves s s' m = Gives (Open s) (λ _. Open s') m

Moves-if :
    {A : Type 0} (s1 s2 s' : List Scope) (b : Bool) (m n : M A)
    → Moves s1 s' m
    → Moves s2 s' n
    → Moves (if b then s1 else s2) s' (if b then m else n)
Moves-if s1 s2 s' true m n km kn = km
Moves-if s1 s2 s' false m n km kn = kn

pub Moves-branch :
    {A : Type 0} (s s' : List Scope) (c : SessionCall) (t : Answer → Bool)
    (s1 s2 : Answer → List Scope) (m n : Answer → E A)
    → ((a : Answer) → after_session c a s ≡ some (if t a then s1 a else s2 a))
    → ((a : Answer) → Moves (s1 a) s' (m a))
    → ((a : Answer) → Moves (s2 a) s' (n a))
    → Moves s s' (Fallible.◌>>=◌ (lift (call (Call.session c))) λ a. if t a then m a else n a)
unfolding call held lift Fallible.◌>>=◌ Effect.◌>>=◌ Effect.pure Fallible.continue
Moves-branch s s' c t s1 s2 m n moved km kn = record {
  at = λ e w p.
      let a = e.answer w.trace (Call.session c) in
      let w1 = record w { trace = (record { call = Call.session c; answer = a }) ∷ w.trace } in
      (Moves-if (s1 a) (s2 a) s' (t a) (m a) (n a) (km a) (kn a)).at e w1 (rw p (moved a));
}

pub Moves-invoke :
    (s s' : List Scope) (c : SessionCall)
    → ((a : Answer) → after_session c a s ≡ some s')
    → Moves s s' (invoke c)
unfolding invoke call held Effect.◌>>=◌ Effect.pure
Moves-invoke s s' c moved = record { at = λ e w p. holds (rw p (moved _)) }

pub ℕ-eqb_refl : (n : ℕ) → (n == n) ≡ true
ℕ-eqb_refl n = ground arith

module _ (s : List Scope) where
  pub calls-Open : CallsKeep (Open s)
  calls-Open = record { at_call = λ c _ h. other_call-Open s c h }

  pub invoke-Open :
      (c : SessionCall) → ((a : Answer) → after_session c a s ≡ some s) → Moves s s (invoke c)
  invoke-Open c same = Moves-invoke s s c same

  destroy_rows-Open : (xs : List Entry) → Keeps (Open s) (destroy_rows xs)
  unfolding destroy_rows
  destroy_rows-Open [] = search keeps_rules
  destroy_rows-Open (x ∷ xs) =
      Keeps-bind _ _ (destroy_inode-Keeps calls-Open x.inode) (λ _. destroy_rows-Open xs)

  pub destroy_fs-Open : Keeps (Open s) destroy_fs
  unfolding destroy_fs
  destroy_fs-Open = search (keeps_rules, destroy_rows-Open, destroy_inode-Keeps, calls-Open)

  pub modify-Open :
      (f : World → World) → ((w : World) → Open s w → Open s (f w)) → Keeps (Open s) (modify f)
  unfolding modify
  modify-Open f k = record { at = λ e w p. holds (k w p) }

  send_to-Open : (r : Reply) (name : Text) (req : Option ℕ) → Keeps (Open s) (send_to r name req)
  unfolding send_to clear
  send_to-Open r name none = search keeps_rules
  send_to-Open r name (some req) = search (syscall_rules, other_call-Open, modify-Open)

  send-Open : (r : Reply) (name : Text) → Keeps (Open s) (send r name)
  unfolding send
  send-Open r name = search (keeps_rules, send_to-Open)

  stateless-Open : Stateless (Open s)
  stateless-Open = record {
    framed = record { at_state = λ w root inodes p. p; at_next = λ w p. p };
    at_directories = λ w directories p. p;
  }

  pub state-Open : StateKeeps (Open s)
  state-Open = stateless_state calls-Open stateless-Open send-Open
