-- ===== src/Resource/Mount.antt =====
-- pafs/mount.h and pafs/mount.cc, with syscalls::umount, which takes a Mount by value: a Mount owns
-- what is mounted at its target, which is the empty text where it owns nothing.
use pagealignfs.Prelude.{ℕ, zero, suc, List, [], ◌∷◌, ◌≡◌, refl, false, if◌then◌else◌}
use pagealignfs.Prelude.Int.{minus_one, eqb_ℤ}
use pagealignfs.Prelude.Bytes.{Text, text}
use pagealignfs.System.{Env, Event}
use pagealignfs.System.Calls.{Call}
use pagealignfs.World.{World}
use pagealignfs.Status.{is_ok, errno_to_status}
use pagealignfs.Effect
use pagealignfs.Effect.{M, diverge, diverged, call, asks}
use pagealignfs.Effect.Fallible
use pagealignfs.Effect.Fallible.{E, pure, return, lift, finally, ◌>>=◌, ◌>>◌, log_if_error}
use pagealignfs.Syscalls.Errors.{errno_result}

pub record Mount : Type 0 where
  pub target : Text

-- operator=(Mount &&): both objects afterwards
unfoldable pub move_assign : Mount → Mount → Mount × Mount
move_assign this o = (record this { target = o.target }, record o { target = this.target })

-- Release: the target, and what the object is left as
unfoldable pub release : Mount → Text × Mount
release this = (this.target, record { target = [] })

-- ~Mount, by the umount that it calls
destroy_by : (Text → E (Unit {0})) → Text → M (Unit {0})
unfolding log_if_error Effect.pure
destroy_by umount [] = Effect.pure tt
destroy_by umount (c ∷ target) = log_if_error (umount (c ∷ target))

-- The parameter is released where the call succeeds, and destroyed on the way out. Its destructor
-- calls umount in turn: `depth` bounds these calls.
unfoldable pub umount : (depth : ℕ) → Text → (flags : ℕ) → E (Unit {0})
unfolding errno_result destroy_by release
umount zero target flags = lift diverge
umount (suc depth) target flags = do
  a ← lift (call (Call.umount2 target flags))
  if eqb_ℤ a.rc minus_one
      then finally (errno_result a.errno (text "umount2"))
          (destroy_by (λ left. umount depth left 0) target)
      else lift
          (destroy_by (λ left. umount depth left 0) (release (record { target = target })).1.target)

-- ~Mount
unfoldable pub destroy : (depth : ℕ) → Mount → M (Unit {0})
unfolding destroy_by
destroy depth this = destroy_by (λ left. umount depth left 0) this.target

-- Every umount2 of this target fails, with an errno that is an error.
pub record IsBusy (e : Env) (target : Text) : Type 0 where
  pub fails : (h : List Event) (flags : ℕ) → (e.answer h (Call.umount2 target flags)).rc ≡ minus_one
  pub error :
      (h : List Event) (flags : ℕ)
      → is_ok
          (errno_to_status e (e.answer h (Call.umount2 target flags)).errno (text "umount2")).code
        ≡ false

-- An umount that fails tries again from the destructor of its parameter, so where every try fails
-- it never returns, however many calls are allowed.
pub umount-diverged :
    (e : Env) (c : ℕ) (rest : Text)
    → IsBusy e (c ∷ rest)
    → (depth flags : ℕ) (w : World) → umount depth (c ∷ rest) flags e w ≡ diverged
unfolding umount diverge lift asks Effect.◌>>=◌ Fallible.◌>>=◌ return call pure finally
umount-diverged e c rest busy zero flags w = refl
umount-diverged e c rest busy (suc depth) flags w = rw (
  busy.fails w.trace flags,
  busy.error w.trace flags,
  log_if_error,
  umount-diverged e c rest busy depth 0,
)
