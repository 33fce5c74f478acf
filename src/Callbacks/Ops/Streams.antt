-- ===== src/Callbacks/Ops/Streams.antt =====
-- The callbacks of pafs/fuse_ops.h for directories: none for a class without the operation (nullptr),
-- and else what libfuse calls.
use pagealignfs.Prelude.{ℕ, Bool, Option}
use pagealignfs.System.Types.{FileInfo}
use mathlib.Core.Option
use pagealignfs.Effect.{M}
use pagealignfs.Callbacks.Replying.{replying_failure, replying_always, checked}
use pagealignfs.Callbacks.Concepts.{
  FuseOpenDirOp, FuseReadDirOp, FuseReleaseDirOp, FuseFSyncDirOp, FuseReadDirPlusOp,
}

abbrev pub get_fuse_opendir_op :
    Option FuseOpenDirOp → Option (ℕ → (ino : ℕ) → (fi : Option FileInfo) → M (Unit {0}))
get_fuse_opendir_op =
    Option.map (λ handler req ino m. checked m λ fi. replying_failure req (handler ino fi))

abbrev pub get_fuse_readdir_op :
    Option FuseReadDirOp
    → Option (ℕ → (ino : ℕ) → (size : ℕ) → (off : ℕ) → (fi : Option FileInfo) → M (Unit {0}))
get_fuse_readdir_op =
    Option.map
      (λ handler req ino size off m. checked m λ fi. replying_always req (handler ino size off fi))

abbrev pub get_fuse_releasedir_op :
    Option FuseReleaseDirOp → Option (ℕ → (ino : ℕ) → (fi : Option FileInfo) → M (Unit {0}))
get_fuse_releasedir_op =
    Option.map (λ handler req ino m. checked m λ fi. replying_always req (handler ino fi))

abbrev pub get_fuse_fsyncdir_op :
    Option FuseFSyncDirOp
    → Option (ℕ → (ino : ℕ) → (datasync : Bool) → (fi : Option FileInfo) → M (Unit {0}))
get_fuse_fsyncdir_op =
    Option.map
      (λ handler req ino datasync m. checked m λ fi. replying_always req (handler ino datasync fi))

abbrev pub get_fuse_readdirplus_op :
    Option FuseReadDirPlusOp
    → Option (ℕ → (ino : ℕ) → (size : ℕ) → (off : ℕ) → (fi : Option FileInfo) → M (Unit {0}))
get_fuse_readdirplus_op =
    Option.map
      (λ handler req ino size off m. checked m λ fi. replying_always req (handler ino size off fi))
