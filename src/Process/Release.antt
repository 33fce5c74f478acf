-- ===== src/Process/Release.antt =====
-- The process gives back all that it acquired, on every way out of main.
use pagealignfs.Prelude.{ℕ, List, ◌∷◌, Option, none, some, ◌==◌, ◌≡◌, refl}
use pagealignfs.Prelude.Int.{ℤ, pos, eqb_ℤ}
use pagealignfs.Prelude.Bytes.{Text}
use pagealignfs.System.{Env, Answer}
use pagealignfs.System.Calls.{SessionCall}
use pagealignfs.World.{World, Options}
use pagealignfs.Status.{StatusOr, ok, err}
use pagealignfs.Effect
use pagealignfs.Effect.{M, call, modify, done, and_then}
use pagealignfs.Effect.Fallible
use pagealignfs.Effect.Fallible.{E, lift, finally}
use pagealignfs.Effect.Keeps.{Keeps, Holds, Keeps-bind, keeps_rules}
use pagealignfs.Effect.Gives.{
  Gives-then, Gives-if, Gives-finally, Gives-lift, Keeps-Gives, Holds-after,
}
use pagealignfs.Fs.Keeps.Entries.{create_fs-Keeps}
use pagealignfs.Process.{
  CmdlineOpts, invoke, loop_threads, run_session, mount_session, handle_signals, open_session,
  serve_mountpoint, serve, run_main, exit_code, main,
}
use pagealignfs.Process.Scopes.{
  Scope, args, mountpoint, session, handlers, mounted, config, after_session, held, Open, Moves,
  Moves-branch, Moves-invoke, ℕ-eqb_refl, invoke-Open, destroy_fs-Open, modify-Open, state-Open,
}

Moves-lift : {A : Type 0} (s s' : List Scope) (m : M A) → Moves s s' m → Moves s s' (lift m)
Moves-lift s s' m km = Gives-lift m km (λ a w p. p)

Moves-then :
    {A B : Type 0} (s : List Scope) (m : E A) (f : A → E B)
    → Moves s s m
    → ((a : A) → Moves s s (f a))
    → Moves s s (Fallible.◌>>=◌ m f)
Moves-then s m f km kf = Gives-then m f km kf (λ st w p. p)

Moves-finally-from :
    {A : Type 0} (s s1 s2 : List Scope) (m : E A) (c : M (Unit {0}))
    → Moves s s1 m
    → Moves s1 s2 c
    → Moves s s2 (finally m c)
Moves-finally-from s s1 s2 m c km kc = Gives-finally m c km (λ r. kc)

Moves-finally :
    {A : Type 0} (s s1 : List Scope) (m : E A) (c : M (Unit {0}))
    → Moves s1 s1 m
    → Moves s1 s c
    → Moves s1 s (finally m c)
Moves-finally s s1 m c km kc = Moves-finally-from s1 s1 s m c km kc

Moves-pure : {A : Type 0} (s : List Scope) (a : A) → Moves s s (Fallible.pure a)
Moves-pure s a = Keeps-Gives _ (search keeps_rules)

module _ (s : List Scope) where
  -- a call that neither acquires nor releases, as a step
  step :
      (c : SessionCall)
      → ((a : Answer) → after_session c a s ≡ some s)
      → Moves s s (lift (invoke c))
  step c same = Moves-lift s s _ (invoke-Open s c same)

  release :
      (x : Scope) (c : SessionCall)
      → ((a : Answer) → after_session c a (x ∷ s) ≡ some s)
      → Moves (x ∷ s) s (invoke c)
  release x c moved = Moves-invoke (x ∷ s) s c moved

module _ (cmdline : CmdlineOpts) (flags : Options) (session_loop : M ℤ)
    (kl : (s : List Scope) → Keeps (Open s) session_loop) where
  loop_threads-Moves :
      (s : List Scope) (n : ℕ) → Moves (config n ∷ s) s (loop_threads cmdline flags session_loop n)
  unfolding loop_threads after_session
  loop_threads-Moves s n =
      let c = config n ∷ s in
      Moves-finally s c _ _
        (Moves-then c _ _ (step c _ (λ a. refl)) λ _.
          Moves-then c _ _ (step c _ (λ a. refl)) λ _.
            Moves-then c _ _ (step c _ (λ a. refl)) λ _. Moves-lift c c _ (Keeps-Gives _ (kl c)))
        (release s (config n) _ (λ a. rw (ℕ-eqb_refl n)))

  run_session-Moves : (s : List Scope) → Moves s s (run_session cmdline flags session_loop)
  unfolding run_session after_session
  run_session-Moves s = Moves-then s _ _ (step s _ (λ a. refl)) λ _.
      Gives-if _ _ _ (Moves-lift s s _ (Keeps-Gives _ (kl s))) (
        Moves-branch s s SessionCall.cfg_create (λ a. a.number == 0) (λ a. s)
          (λ a. config a.number ∷ s) _ _ (λ a. refl) (λ a. Keeps-Gives _ (search keeps_rules))
          (λ a. loop_threads-Moves s a.number))

  mount_session-Moves :
      (s : List Scope) (p : ℕ) (m : Text) → Moves s s (mount_session cmdline flags session_loop p m)
  unfolding mount_session after_session
  mount_session-Moves s p m =
      Moves-branch s s (SessionCall.mount p m) (λ a. eqb_ℤ a.rc (pos 0)) (λ a. mounted p ∷ s)
        (λ a. s) _ _ (λ a. refl)
        (λ a.
          Moves-finally s (mounted p ∷ s) _ _ (run_session-Moves (mounted p ∷ s))
            (release s (mounted p) _ (λ a'. rw (ℕ-eqb_refl p))))
        (λ a. Moves-pure s _)

  handle_signals-Moves :
      (s : List Scope) (p : ℕ) (m : Text)
      → Moves s s (handle_signals cmdline flags session_loop p m)
  unfolding handle_signals after_session
  handle_signals-Moves s p m =
      Moves-branch s s (SessionCall.set_signal_handlers p) (λ a. eqb_ℤ a.rc (pos 0))
        (λ a. handlers p ∷ s) (λ a. s) _ _ (λ a. refl)
        (λ a.
          Moves-finally s (handlers p ∷ s) _ _ (mount_session-Moves (handlers p ∷ s) p m)
            (release s (handlers p) _ (λ a'. rw (ℕ-eqb_refl p))))
        (λ a. Moves-pure s _)

  open_session-Moves :
      (s : List Scope) (m : Text) → Moves s s (open_session cmdline flags session_loop m)
  unfolding open_session after_session
  open_session-Moves s m =
      Moves-branch s s SessionCall.new_session (λ a. a.number == 0) (λ a. s)
        (λ a. session a.number ∷ s) _ _ (λ a. refl) (λ a. Moves-pure s _)
        (λ a.
          Moves-finally s (session a.number ∷ s) _ _
            (handle_signals-Moves (session a.number ∷ s) a.number m)
            (release s (session a.number) _ (λ a'. rw (ℕ-eqb_refl a.number))))

  serve_mountpoint-Moves :
      (s : List Scope) (o : Option Text) → Moves s s (serve_mountpoint cmdline flags session_loop o)
  unfolding serve_mountpoint after_session
  serve_mountpoint-Moves s none = Moves-then s _ _ (step s _ (λ a. refl)) λ _. Moves-pure s _
  serve_mountpoint-Moves s (some m) =
      Moves-then s _ _ (Keeps-Gives _ (create_fs-Keeps (state-Open s) m)) λ root.
        Moves-then s _ _ (Moves-lift s s _ (Keeps-Gives _ (modify-Open s _ (λ w p. p))))
          λ _. Moves-finally s s _ _ (open_session-Moves s m) (Keeps-Gives _ (destroy_fs-Open s))

  serve-Moves : (s : List Scope) → Moves s s (serve cmdline flags session_loop)
  unfolding serve after_session
  serve-Moves s =
      Gives-if cmdline.show_help _ _
        (Moves-then s _ _ (step s _ (λ a. refl))
          λ _. Moves-then s _ _ (step s _ (λ a. refl)) λ _. Moves-pure s _)
        (Gives-if cmdline.show_version _ _
          (Moves-then s _ _ (step s _ (λ a. refl))
            λ _. Moves-then s _ _ (step s _ (λ a. refl)) λ _. Moves-pure s _)
          (serve_mountpoint-Moves s cmdline.mountpoint))

  run_main-Moves : (s : List Scope) → Moves s s (run_main cmdline flags session_loop)
  unfolding run_main after_session
  run_main-Moves s =
      Moves-finally-from s (args ∷ s) s _ _
        (Moves-branch s (args ∷ s) SessionCall.parse_cmdline (λ a. eqb_ℤ a.rc (pos 0))
          (λ a. mountpoint ∷ args ∷ s) (λ a. args ∷ s) _ _ (λ a. refl)
          (λ a.
            Moves-finally (args ∷ s) (mountpoint ∷ args ∷ s) _ _
              (serve-Moves (mountpoint ∷ args ∷ s)) (release (args ∷ s) mountpoint _ (λ a'. refl)))
          (λ a. Moves-pure (args ∷ s) _))
        (release s args _ (λ a'. refl))

  exit_code-Moves :
      (s : List Scope) (r : StatusOr ℤ) → Moves s s (exit_code cmdline flags session_loop r)
  unfolding exit_code after_session
  exit_code-Moves s (ok n) = Keeps-Gives _ (search keeps_rules)
  exit_code-Moves s (err st) = Keeps-Gives _ (
      Keeps-bind _ _ (record { at = (invoke-Open s (SessionCall.print st.message) (λ a. refl)).at })
        (λ _. search keeps_rules))

  -- If the session loop neither acquires nor releases, main holds at its end what it held at its
  -- start: on every way out, each resource of libfuse that it acquired has been released once, and
  -- always the one that was acquired last.
  pub main-Releases :
      (s : List Scope) (e : Env) (w : World)
      → held w.trace ≡ some s
      → Holds (λ _ w'. held w'.trace ≡ some s) (main cmdline flags session_loop e w)
  unfolding main Effect.◌>>=◌
  main-Releases s e w p =
      Holds-after ((run_main-Moves s).at e w p) λ r w' p'. (exit_code-Moves s r).at e w' p'
