-- ===== src/Resource/Descriptor.antt =====
-- pafs/fd.h and pafs/fd.cc.
use pagealignfs.Prelude.{if◌then◌else◌}
use pagealignfs.Prelude.Int.{ℤ, minus_one, eqb_ℤ}
use pagealignfs.World.{FileDescriptor}
use pagealignfs.Status.{StatusOr, ok, err}
use pagealignfs.Effect.{M, pure, ◌>>=◌, ◌>>◌}
use pagealignfs.Effect.Fallible.{E, log_if_error}
use pagealignfs.Syscalls.Files.{close}

abbrev pub empty : FileDescriptor
empty = record { fd = minus_one }

-- Release: the number, and what the object is left as
unfoldable pub release : FileDescriptor → ℤ × FileDescriptor
release o = (o.fd, record o { fd = minus_one })

-- operator=(FileDescriptor &&): both objects afterwards
unfoldable pub move_assign : FileDescriptor → FileDescriptor → FileDescriptor × FileDescriptor
move_assign this o = (record this { fd = o.fd }, record o { fd = this.fd })

unfoldable pub move_construct : FileDescriptor → FileDescriptor × FileDescriptor
unfolding move_assign
move_construct o = move_assign empty o

-- ~FileDescriptor
unfoldable pub destroy : FileDescriptor → M (Unit {0})
destroy this = if eqb_ℤ this.fd minus_one then pure tt else log_if_error (close this)

module _ {A : Type 0} where
  unfoldable pub end_scope : FileDescriptor → StatusOr (A × FileDescriptor) → M (StatusOr A)
  unfolding destroy pure ◌>>=◌
  end_scope fd (ok (a, left)) = destroy left >> pure (ok a)
  end_scope fd (err st) = destroy fd >> pure (err st)

  -- A local `FileDescriptor fd`, destroyed on every way out of its scope: at the end of the scope
  -- as the scope left it, and on an early return as it was.
  unfoldable pub with_fd : FileDescriptor → E (A × FileDescriptor) → E A
  unfolding end_scope ◌>>=◌
  with_fd fd body = body >>= end_scope fd
