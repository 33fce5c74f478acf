-- ===== src/Resource/SignalMask.antt =====
-- pafs/signal.h and pafs/signal.cc.
use pagealignfs.Prelude.{ℕ, Bool, true, if◌then◌else◌}
use pagealignfs.Prelude.Int.{ℤ}
use pagealignfs.System.Constants.{sig_setmask}
use pagealignfs.Effect
use pagealignfs.Effect.{M}
use pagealignfs.Effect.Fallible.{E, pure, ◌>>=◌, log_if_error}
use pagealignfs.Syscalls.Process.{pthread_sigmask}

pub record ScopedSignalMask : Type 0 where
  pub valid : Bool
  pub oldset : ℕ

-- ScopedSignalMask::Create
unfoldable pub create : ℤ → (set : ℕ) → E ScopedSignalMask
unfolding pthread_sigmask
create how set = do
  oldset ← pthread_sigmask how set
  pure (record { valid = true; oldset = oldset })

-- operator=(ScopedSignalMask &&): both objects afterwards
unfoldable pub move_assign :
    ScopedSignalMask → ScopedSignalMask → ScopedSignalMask × ScopedSignalMask
move_assign this o = (
  record { valid = o.valid; oldset = o.oldset },
  record { valid = this.valid; oldset = this.oldset },
)

-- ~ScopedSignalMask
unfoldable pub destroy : ScopedSignalMask → M (Unit {0})
destroy this =
    if this.valid
    then log_if_error (do _ ← pthread_sigmask sig_setmask this.oldset; pure tt)
    else Effect.pure tt
