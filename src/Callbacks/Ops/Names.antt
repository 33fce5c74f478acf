-- ===== src/Callbacks/Ops/Names.antt =====
-- The callbacks of pafs/fuse_ops.h for the names of the tree: none for a class without the operation (nullptr),
-- and else what libfuse calls.
use pagealignfs.Prelude.{ℕ, Option}
use pagealignfs.Prelude.Bytes.{Text}
use mathlib.Core.Option
use pagealignfs.Effect.{M}
use pagealignfs.Callbacks.Replying.{replying_failure, replying_always}
use pagealignfs.Callbacks.Concepts.{
  FuseReadLinkOp, FuseMknodOp, FuseMkdirOp, FuseUnlinkOp, FuseRmdirOp, FuseSymlinkOp, FuseRenameOp,
  FuseLinkOp,
}

abbrev pub get_fuse_readlink_op : Option FuseReadLinkOp → Option (ℕ → (ino : ℕ) → M (Unit {0}))
get_fuse_readlink_op = Option.map (λ handler req ino. replying_failure req (handler ino))

abbrev pub get_fuse_mknod_op :
    Option FuseMknodOp
    → Option (ℕ → (parent : ℕ) → (name : Text) → (mode : ℕ) → (rdev : ℕ) → M (Unit {0}))
get_fuse_mknod_op =
    Option.map
      (λ handler req parent name mode rdev. replying_failure req (handler parent name mode rdev))

abbrev pub get_fuse_mkdir_op :
    Option FuseMkdirOp → Option (ℕ → (parent : ℕ) → (name : Text) → (mode : ℕ) → M (Unit {0}))
get_fuse_mkdir_op =
    Option.map (λ handler req parent name mode. replying_failure req (handler parent name mode))

abbrev pub get_fuse_unlink_op :
    Option FuseUnlinkOp → Option (ℕ → (parent : ℕ) → (name : Text) → M (Unit {0}))
get_fuse_unlink_op =
    Option.map (λ handler req parent name. replying_always req (handler parent name))

abbrev pub get_fuse_rmdir_op :
    Option FuseRmdirOp → Option (ℕ → (parent : ℕ) → (name : Text) → M (Unit {0}))
get_fuse_rmdir_op =
    Option.map (λ handler req parent name. replying_always req (handler parent name))

abbrev pub get_fuse_symlink_op :
    Option FuseSymlinkOp
    → Option (ℕ → (target : Text) → (parent : ℕ) → (name : Text) → M (Unit {0}))
get_fuse_symlink_op =
    Option.map (λ handler req target parent name. replying_failure req (handler target parent name))

abbrev pub get_fuse_rename_op :
    Option FuseRenameOp
    → Option (
        ℕ
        → (parent : ℕ) → (name : Text) → (newparent : ℕ) → (newname : Text) → (flags : ℕ)
        → M (Unit {0}))
get_fuse_rename_op = Option.map (λ handler req parent name newparent newname flags.
    replying_always req (handler parent name newparent newname flags))

abbrev pub get_fuse_link_op :
    Option FuseLinkOp → Option (ℕ → (ino : ℕ) → (parent : ℕ) → (newname : Text) → M (Unit {0}))
get_fuse_link_op =
    Option.map (λ handler req ino parent newname. replying_failure req (handler ino parent newname))
