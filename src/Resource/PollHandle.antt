-- ===== src/Resource/PollHandle.antt =====
-- class FusePollHandle of pafs/fuse.h and pafs/fuse.cc.
use pagealignfs.Prelude.{Bool, not, ◌==◌, if◌then◌else◌}
use pagealignfs.Prelude.Int.{negate}
use pagealignfs.Prelude.Bytes.{text}
use pagealignfs.System.Calls.{Call}
use pagealignfs.World.{FusePollHandle}
use pagealignfs.Effect.{M, pure, call, ◌>>=◌}
use pagealignfs.Effect.Fallible
use pagealignfs.Effect.Fallible.{E, lift}
use pagealignfs.Syscalls.Errors.{errno_result}

abbrev pub empty : FusePollHandle
empty = record { handle = 0 }

-- operator bool
abbrev pub is_set : FusePollHandle → Bool
is_set this = not (this.handle == 0)

-- operator=(FusePollHandle &&): both objects afterwards
unfoldable pub move_assign : FusePollHandle → FusePollHandle → FusePollHandle × FusePollHandle
move_assign this o = (record this { handle = o.handle }, record o { handle = this.handle })

-- ~FusePollHandle
unfoldable pub destroy : FusePollHandle → M (Unit {0})
destroy this =
    if this.handle == 0
    then pure tt
    else (do _ ← call (Call.fuse_pollhandle_destroy this.handle); pure tt)

unfoldable pub notify : FusePollHandle → E (Unit {0})
unfolding errno_result
notify this =
    Fallible.◌>>=◌ (lift (call (Call.fuse_lowlevel_notify_poll this.handle)))
      λ a. errno_result (negate a.rc) (text "fuse_lowlevel_notify_poll")
