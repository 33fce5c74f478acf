-- ===== src/Callbacks/Ops/Locks.antt =====
-- The callbacks of pafs/fuse_ops.h for locks, and the rest: none for a class without the operation (nullptr),
-- and else what libfuse calls.
use pagealignfs.Prelude.{ℕ, Bool, Option}
use pagealignfs.Prelude.Bytes.{Text}
use pagealignfs.System.Types.{FileInfo, Bufvec, Flock}
use pagealignfs.World.{FusePollHandle}
use mathlib.Core.Option
use pagealignfs.Effect.{M}
use pagealignfs.Callbacks.Replying.{replying_failure, replying_always, replying_none, checked}
use pagealignfs.Callbacks.Concepts.{
  FuseGetLkOp, FuseSetLkOp, FuseBMapOp, FuseIoCtlOp, FusePollOp, FuseRetrieveReplyOp, FuseFLockOp,
}

abbrev pub get_fuse_getlk_op :
    Option FuseGetLkOp
    → Option (ℕ → (ino : ℕ) → (fi : Option FileInfo) → (lock : Flock) → M (Unit {0}))
get_fuse_getlk_op =
    Option.map
      (λ handler req ino m lock. checked m λ fi. replying_failure req (handler ino fi lock))

abbrev pub get_fuse_setlk_op :
    Option FuseSetLkOp
    → Option
        (ℕ → (ino : ℕ) → (fi : Option FileInfo) → (lock : Flock) → (sleep : Bool) → M (Unit {0}))
get_fuse_setlk_op = Option.map (λ handler req ino m lock sleep.
    checked m λ fi. replying_failure req (handler ino fi lock sleep))

abbrev pub get_fuse_bmap_op :
    Option FuseBMapOp → Option (ℕ → (ino : ℕ) → (blocksize : ℕ) → (idx : ℕ) → M (Unit {0}))
get_fuse_bmap_op =
    Option.map (λ handler req ino blocksize idx. replying_failure req (handler ino blocksize idx))

abbrev pub get_fuse_ioctl_op :
    Option FuseIoCtlOp
    → Option (
        ℕ
        → (ino : ℕ) → (cmd : ℕ) → (arg : ℕ) → (fi : Option FileInfo) → (flags : ℕ) → (in_buf : Text)
        → (out_bufsz : ℕ) → M (Unit {0}))
get_fuse_ioctl_op = Option.map (λ handler req ino cmd arg m flags in_buf out_bufsz.
    checked m λ fi. replying_failure req (handler ino cmd arg fi flags in_buf out_bufsz))

abbrev pub get_fuse_poll_op :
    Option FusePollOp
    → Option (ℕ → (ino : ℕ) → (fi : Option FileInfo) → (ph : FusePollHandle) → M (Unit {0}))
get_fuse_poll_op =
    Option.map (λ handler req ino m ph. checked m λ fi. replying_failure req (handler ino fi ph))

abbrev pub get_fuse_retrieve_reply_op :
    Option FuseRetrieveReplyOp
    → Option (ℕ → (cookie : ℕ) → (ino : ℕ) → (offset : ℕ) → (bufv : Bufvec) → M (Unit {0}))
get_fuse_retrieve_reply_op =
    Option.map
      (λ handler req cookie ino offset bufv. replying_none req (handler cookie ino offset bufv))

abbrev pub get_fuse_flock_op :
    Option FuseFLockOp → Option (ℕ → (ino : ℕ) → (fi : Option FileInfo) → (op : ℕ) → M (Unit {0}))
get_fuse_flock_op =
    Option.map (λ handler req ino m op. checked m λ fi. replying_always req (handler ino fi op))
