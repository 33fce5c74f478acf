-- ===== src/Callbacks/Ops/Entries.antt =====
-- The callbacks of pafs/fuse_ops.h for the inodes and the connection: none for a class without the operation (nullptr),
-- and else what libfuse calls.
use pagealignfs.Prelude.{ℕ, List, Option}
use pagealignfs.Prelude.Bytes.{Text}
use pagealignfs.System.Types.{Stat, FileInfo, ToSet, ForgetData}
use mathlib.Core.Option
use pagealignfs.Effect.{M}
use pagealignfs.Effect.Fallible.{log_if_error}
use pagealignfs.Callbacks.Replying.{replying_failure, replying_none, checked}
use pagealignfs.Callbacks.Concepts.{
  FuseConnInfo, FuseInitOp, FuseDestroyOp, FuseLookupOp, FuseForgetOp, FuseGetAttrOp, FuseSetAttrOp,
  FuseStatFsOp, FuseForgetMultiOp,
}

abbrev pub get_fuse_init_op :
    Option FuseInitOp → Option ((conn : Option FuseConnInfo) → M (Unit {0}))
get_fuse_init_op = Option.map (λ handler m. checked m λ conn. log_if_error (handler conn))

abbrev pub get_fuse_destroy_op : Option FuseDestroyOp → Option (M (Unit {0}))
get_fuse_destroy_op = Option.map (λ handler. log_if_error handler)

abbrev pub get_fuse_lookup_op :
    Option FuseLookupOp → Option (ℕ → (parent : ℕ) → (name : Text) → M (Unit {0}))
get_fuse_lookup_op =
    Option.map (λ handler req parent name. replying_failure req (handler parent name))

abbrev pub get_fuse_forget_op :
    Option FuseForgetOp → Option (ℕ → (ino : ℕ) → (nlookup : ℕ) → M (Unit {0}))
get_fuse_forget_op = Option.map (λ handler req ino nlookup. replying_none req (handler ino nlookup))

abbrev pub get_fuse_getattr_op : Option FuseGetAttrOp → Option (ℕ → (ino : ℕ) → M (Unit {0}))
get_fuse_getattr_op = Option.map (λ handler req ino. replying_failure req (handler ino))

abbrev pub get_fuse_setattr_op :
    Option FuseSetAttrOp
    → Option
        (ℕ → (ino : ℕ) → (attr : Stat) → (to_set : ToSet) → (fi : Option FileInfo) → M (Unit {0}))
get_fuse_setattr_op = Option.map (λ handler req ino attr to_set m.
    checked m λ fi. replying_failure req (handler ino attr to_set fi))

abbrev pub get_fuse_statfs_op : Option FuseStatFsOp → Option (ℕ → (ino : ℕ) → M (Unit {0}))
get_fuse_statfs_op = Option.map (λ handler req ino. replying_failure req (handler ino))

abbrev pub get_fuse_forget_multi_op :
    Option FuseForgetMultiOp → Option (ℕ → (forgets : List ForgetData) → M (Unit {0}))
get_fuse_forget_multi_op = Option.map (λ handler req forgets. replying_none req (handler forgets))
