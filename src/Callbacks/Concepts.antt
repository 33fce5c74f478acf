-- ===== src/Callbacks/Concepts.antt =====
-- The concepts of pafs/fuse_ops.h: the operation that a class must have for each of them. What it
-- takes beside the FuseRequest, which the world holds, is its arguments; its absl::Status is the
-- result of the model's fallible code.
use pagealignfs.Prelude.{ℕ, Bool, List}
use pagealignfs.Prelude.Bytes.{Text}
use pagealignfs.System.Types.{Stat, FileInfo, Bufvec, Flock, ToSet, ForgetData}
use pagealignfs.World.{FusePollHandle}
use pagealignfs.Effect.Fallible.{E}

-- struct fuse_conn_info of libfuse, by its address: no operation of the program changes it.
pub record FuseConnInfo : Type 0 where
  pub address : ℕ

abbrev pub FuseInitOp : Type 0
FuseInitOp = FuseConnInfo → E (Unit {0})

abbrev pub FuseDestroyOp : Type 0
FuseDestroyOp = E (Unit {0})

abbrev pub FuseLookupOp : Type 0
FuseLookupOp = (parent : ℕ) → (name : Text) → E (Unit {0})

abbrev pub FuseForgetOp : Type 0
FuseForgetOp = (ino : ℕ) → (nlookup : ℕ) → E (Unit {0})

abbrev pub FuseGetAttrOp : Type 0
FuseGetAttrOp = (ino : ℕ) → E (Unit {0})

abbrev pub FuseSetAttrOp : Type 0
FuseSetAttrOp = (ino : ℕ) → (attr : Stat) → (to_set : ToSet) → (fi : FileInfo) → E (Unit {0})

abbrev pub FuseReadLinkOp : Type 0
FuseReadLinkOp = (ino : ℕ) → E (Unit {0})

abbrev pub FuseMknodOp : Type 0
FuseMknodOp = (parent : ℕ) → (name : Text) → (mode : ℕ) → (rdev : ℕ) → E (Unit {0})

abbrev pub FuseMkdirOp : Type 0
FuseMkdirOp = (parent : ℕ) → (name : Text) → (mode : ℕ) → E (Unit {0})

abbrev pub FuseUnlinkOp : Type 0
FuseUnlinkOp = (parent : ℕ) → (name : Text) → E (Unit {0})

abbrev pub FuseRmdirOp : Type 0
FuseRmdirOp = (parent : ℕ) → (name : Text) → E (Unit {0})

abbrev pub FuseSymlinkOp : Type 0
FuseSymlinkOp = (target : Text) → (parent : ℕ) → (name : Text) → E (Unit {0})

abbrev pub FuseRenameOp : Type 0
FuseRenameOp =
    (parent : ℕ) → (name : Text) → (newparent : ℕ) → (newname : Text) → (flags : ℕ) → E (Unit {0})

abbrev pub FuseLinkOp : Type 0
FuseLinkOp = (ino : ℕ) → (parent : ℕ) → (newname : Text) → E (Unit {0})

abbrev pub FuseOpenOp : Type 0
FuseOpenOp = (ino : ℕ) → (fi : FileInfo) → E (Unit {0})

abbrev pub FuseReadOp : Type 0
FuseReadOp = (ino : ℕ) → (size : ℕ) → (off : ℕ) → (fi : FileInfo) → E (Unit {0})

abbrev pub FuseWriteOp : Type 0
FuseWriteOp = (ino : ℕ) → (buf : Text) → (off : ℕ) → (fi : FileInfo) → E (Unit {0})

abbrev pub FuseFlushOp : Type 0
FuseFlushOp = (ino : ℕ) → (fi : FileInfo) → E (Unit {0})

abbrev pub FuseReleaseOp : Type 0
FuseReleaseOp = (ino : ℕ) → (fi : FileInfo) → E (Unit {0})

abbrev pub FuseFSyncOp : Type 0
FuseFSyncOp = (ino : ℕ) → (datasync : Bool) → (fi : FileInfo) → E (Unit {0})

abbrev pub FuseOpenDirOp : Type 0
FuseOpenDirOp = (ino : ℕ) → (fi : FileInfo) → E (Unit {0})

abbrev pub FuseReadDirOp : Type 0
FuseReadDirOp = (ino : ℕ) → (size : ℕ) → (off : ℕ) → (fi : FileInfo) → E (Unit {0})

abbrev pub FuseReleaseDirOp : Type 0
FuseReleaseDirOp = (ino : ℕ) → (fi : FileInfo) → E (Unit {0})

abbrev pub FuseFSyncDirOp : Type 0
FuseFSyncDirOp = (ino : ℕ) → (datasync : Bool) → (fi : FileInfo) → E (Unit {0})

abbrev pub FuseStatFsOp : Type 0
FuseStatFsOp = (ino : ℕ) → E (Unit {0})

abbrev pub FuseSetXAttrOp : Type 0
FuseSetXAttrOp = (ino : ℕ) → (name : Text) → (value : Text) → (flags : ℕ) → E (Unit {0})

abbrev pub FuseGetXAttrOp : Type 0
FuseGetXAttrOp = (ino : ℕ) → (name : Text) → (size : ℕ) → E (Unit {0})

abbrev pub FuseListXAttrOp : Type 0
FuseListXAttrOp = (ino : ℕ) → (size : ℕ) → E (Unit {0})

abbrev pub FuseRemoveXAttrOp : Type 0
FuseRemoveXAttrOp = (ino : ℕ) → (name : Text) → E (Unit {0})

abbrev pub FuseAccessOp : Type 0
FuseAccessOp = (ino : ℕ) → (mask : ℕ) → E (Unit {0})

abbrev pub FuseCreateOp : Type 0
FuseCreateOp = (ino : ℕ) → (name : Text) → (mode : ℕ) → (fi : FileInfo) → E (Unit {0})

abbrev pub FuseGetLkOp : Type 0
FuseGetLkOp = (ino : ℕ) → (fi : FileInfo) → (lock : Flock) → E (Unit {0})

abbrev pub FuseSetLkOp : Type 0
FuseSetLkOp = (ino : ℕ) → (fi : FileInfo) → (lock : Flock) → (sleep : Bool) → E (Unit {0})

abbrev pub FuseBMapOp : Type 0
FuseBMapOp = (ino : ℕ) → (blocksize : ℕ) → (idx : ℕ) → E (Unit {0})

abbrev pub FuseIoCtlOp : Type 0
FuseIoCtlOp =
    (ino : ℕ)
    → (cmd : ℕ) → (arg : ℕ) → (fi : FileInfo) → (flags : ℕ) → (in_buf : Text) → (out_bufsz : ℕ)
    → E (Unit {0})

abbrev pub FusePollOp : Type 0
FusePollOp = (ino : ℕ) → (fi : FileInfo) → (ph : FusePollHandle) → E (Unit {0})

abbrev pub FuseWriteBufOp : Type 0
FuseWriteBufOp = (ino : ℕ) → (in_buf : Bufvec) → (off : ℕ) → (fi : FileInfo) → E (Unit {0})

abbrev pub FuseRetrieveReplyOp : Type 0
FuseRetrieveReplyOp = (cookie : ℕ) → (ino : ℕ) → (offset : ℕ) → (bufv : Bufvec) → E (Unit {0})

abbrev pub FuseForgetMultiOp : Type 0
FuseForgetMultiOp = List ForgetData → E (Unit {0})

abbrev pub FuseFLockOp : Type 0
FuseFLockOp = (ino : ℕ) → (fi : FileInfo) → (op : ℕ) → E (Unit {0})

abbrev pub FuseFAllocateOp : Type 0
FuseFAllocateOp = (ino : ℕ) → (mode : ℕ) → (offset : ℕ) → (len : ℕ) → (fi : FileInfo) → E (Unit {0})

abbrev pub FuseReadDirPlusOp : Type 0
FuseReadDirPlusOp = (ino : ℕ) → (size : ℕ) → (off : ℕ) → (fi : FileInfo) → E (Unit {0})

abbrev pub FuseCopyFileRangeOp : Type 0
FuseCopyFileRangeOp =
    (ino_in : ℕ)
    → (off_in : ℕ) → (fi_in : FileInfo) → (ino_out : ℕ) → (off_out : ℕ) → (fi_out : FileInfo)
    → (len : ℕ) → (flags : ℕ) → E (Unit {0})

abbrev pub FuseLSeekOp : Type 0
FuseLSeekOp = (ino : ℕ) → (off : ℕ) → (whence : ℕ) → (fi : FileInfo) → E (Unit {0})
