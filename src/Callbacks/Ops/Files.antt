-- ===== src/Callbacks/Ops/Files.antt =====
-- The callbacks of pafs/fuse_ops.h for files: none for a class without the operation (nullptr),
-- and else what libfuse calls.
use pagealignfs.Prelude.{ℕ, Bool, Option}
use pagealignfs.Prelude.Bytes.{Text}
use pagealignfs.System.Types.{FileInfo, Bufvec}
use mathlib.Core.Option
use pagealignfs.Effect.{M}
use pagealignfs.Callbacks.Replying.{replying_failure, replying_always, replying_none, checked}
use pagealignfs.Callbacks.Concepts.{
  FuseOpenOp, FuseReadOp, FuseWriteOp, FuseFlushOp, FuseReleaseOp, FuseFSyncOp, FuseCreateOp,
  FuseWriteBufOp, FuseFAllocateOp, FuseCopyFileRangeOp, FuseLSeekOp,
}

abbrev pub get_fuse_open_file_op :
    Option FuseOpenOp → Option (ℕ → (ino : ℕ) → (fi : Option FileInfo) → M (Unit {0}))
get_fuse_open_file_op =
    Option.map (λ handler req ino m. checked m λ fi. replying_failure req (handler ino fi))

abbrev pub get_fuse_read_op :
    Option FuseReadOp
    → Option (ℕ → (ino : ℕ) → (size : ℕ) → (off : ℕ) → (fi : Option FileInfo) → M (Unit {0}))
get_fuse_read_op =
    Option.map
      (λ handler req ino size off m. checked m λ fi. replying_always req (handler ino size off fi))

abbrev pub get_fuse_write_op :
    Option FuseWriteOp
    → Option (ℕ → (ino : ℕ) → (buf : Text) → (off : ℕ) → (fi : Option FileInfo) → M (Unit {0}))
get_fuse_write_op =
    Option.map
      (λ handler req ino buf off m. checked m λ fi. replying_always req (handler ino buf off fi))

abbrev pub get_fuse_flush_op :
    Option FuseFlushOp → Option (ℕ → (ino : ℕ) → (fi : Option FileInfo) → M (Unit {0}))
get_fuse_flush_op =
    Option.map (λ handler req ino m. checked m λ fi. replying_always req (handler ino fi))

abbrev pub get_fuse_release_op :
    Option FuseReleaseOp → Option (ℕ → (ino : ℕ) → (fi : Option FileInfo) → M (Unit {0}))
get_fuse_release_op =
    Option.map (λ handler req ino m. checked m λ fi. replying_always req (handler ino fi))

abbrev pub get_fuse_fsync_op :
    Option FuseFSyncOp
    → Option (ℕ → (ino : ℕ) → (datasync : Bool) → (fi : Option FileInfo) → M (Unit {0}))
get_fuse_fsync_op =
    Option.map
      (λ handler req ino datasync m. checked m λ fi. replying_always req (handler ino datasync fi))

abbrev pub get_fuse_create_op :
    Option FuseCreateOp
    → Option (ℕ → (ino : ℕ) → (name : Text) → (mode : ℕ) → (fi : Option FileInfo) → M (Unit {0}))
get_fuse_create_op =
    Option.map (λ handler req ino name mode m.
      checked m λ fi. replying_failure req (handler ino name mode fi))

abbrev pub get_fuse_write_buf_op :
    Option FuseWriteBufOp
    → Option (ℕ → (ino : ℕ) → (in_buf : Bufvec) → (off : ℕ) → (fi : FileInfo) → M (Unit {0}))
get_fuse_write_buf_op =
    Option.map (λ handler req ino in_buf off fi. replying_none req (handler ino in_buf off fi))

abbrev pub get_fuse_fallocate_op :
    Option FuseFAllocateOp
    → Option (
        ℕ
        → (ino : ℕ) → (mode : ℕ) → (offset : ℕ) → (len : ℕ) → (fi : Option FileInfo) → M (Unit {0}))
get_fuse_fallocate_op = Option.map (λ handler req ino mode offset len m.
    checked m λ fi. replying_always req (handler ino mode offset len fi))

abbrev pub get_fuse_copy_file_range_op :
    Option FuseCopyFileRangeOp
    → Option (
        ℕ
        → (ino_in : ℕ) → (off_in : ℕ) → (fi_in : Option FileInfo) → (ino_out : ℕ) → (off_out : ℕ)
        → (fi_out : Option FileInfo) → (len : ℕ) → (flags : ℕ) → M (Unit {0}))
get_fuse_copy_file_range_op =
    Option.map (λ handler req ino_in off_in m_in ino_out off_out m_out len flags.
      checked m_in λ fi_in. checked m_out λ fi_out.
        replying_failure req (handler ino_in off_in fi_in ino_out off_out fi_out len flags))

abbrev pub get_fuse_lseek_op :
    Option FuseLSeekOp
    → Option (ℕ → (ino : ℕ) → (off : ℕ) → (whence : ℕ) → (fi : Option FileInfo) → M (Unit {0}))
get_fuse_lseek_op = Option.map (λ handler req ino off whence m.
    checked m λ fi. replying_failure req (handler ino off whence fi))
