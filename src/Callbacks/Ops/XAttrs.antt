-- ===== src/Callbacks/Ops/XAttrs.antt =====
-- The callbacks of pafs/fuse_ops.h for extended attributes and access: none for a class without the operation (nullptr),
-- and else what libfuse calls.
use pagealignfs.Prelude.{ℕ, Option}
use pagealignfs.Prelude.Bytes.{Text}
use mathlib.Core.Option
use pagealignfs.Effect.{M}
use pagealignfs.Callbacks.Replying.{replying_failure, replying_always}
use pagealignfs.Callbacks.Concepts.{
  FuseSetXAttrOp, FuseGetXAttrOp, FuseListXAttrOp, FuseRemoveXAttrOp, FuseAccessOp,
}

abbrev pub get_fuse_setxattr_op :
    Option FuseSetXAttrOp
    → Option (ℕ → (ino : ℕ) → (name : Text) → (value : Text) → (flags : ℕ) → M (Unit {0}))
get_fuse_setxattr_op =
    Option.map
      (λ handler req ino name value flags. replying_always req (handler ino name value flags))

abbrev pub get_fuse_getxattr_op :
    Option FuseGetXAttrOp → Option (ℕ → (ino : ℕ) → (name : Text) → (size : ℕ) → M (Unit {0}))
get_fuse_getxattr_op =
    Option.map (λ handler req ino name size. replying_failure req (handler ino name size))

abbrev pub get_fuse_listxattr_op :
    Option FuseListXAttrOp → Option (ℕ → (ino : ℕ) → (size : ℕ) → M (Unit {0}))
get_fuse_listxattr_op = Option.map (λ handler req ino size. replying_failure req (handler ino size))

abbrev pub get_fuse_removexattr_op :
    Option FuseRemoveXAttrOp → Option (ℕ → (ino : ℕ) → (name : Text) → M (Unit {0}))
get_fuse_removexattr_op =
    Option.map (λ handler req ino name. replying_always req (handler ino name))

abbrev pub get_fuse_access_op :
    Option FuseAccessOp → Option (ℕ → (ino : ℕ) → (mask : ℕ) → M (Unit {0}))
get_fuse_access_op = Option.map (λ handler req ino mask. replying_always req (handler ino mask))
