-- ===== src/Callbacks/Class.antt =====
-- A class whose operations libfuse may call, pafs/fuse_ops.h: for each concept its operation, or none
-- where the class does not satisfy the concept.
use pagealignfs.Prelude.{Option}
use pagealignfs.Callbacks.Concepts.{
  FuseInitOp, FuseDestroyOp, FuseLookupOp, FuseForgetOp, FuseGetAttrOp, FuseSetAttrOp,
  FuseReadLinkOp, FuseMknodOp, FuseMkdirOp, FuseUnlinkOp, FuseRmdirOp, FuseSymlinkOp, FuseRenameOp,
  FuseLinkOp, FuseOpenOp, FuseReadOp, FuseWriteOp, FuseFlushOp, FuseReleaseOp, FuseFSyncOp,
  FuseOpenDirOp, FuseReadDirOp, FuseReleaseDirOp, FuseFSyncDirOp, FuseStatFsOp, FuseSetXAttrOp,
  FuseGetXAttrOp, FuseListXAttrOp, FuseRemoveXAttrOp, FuseAccessOp, FuseCreateOp, FuseGetLkOp,
  FuseSetLkOp, FuseBMapOp, FuseIoCtlOp, FusePollOp, FuseWriteBufOp, FuseRetrieveReplyOp,
  FuseForgetMultiOp, FuseFLockOp, FuseFAllocateOp, FuseReadDirPlusOp, FuseCopyFileRangeOp,
  FuseLSeekOp,
}

pub record FuseOps : Type 0 where
  pub init : Option FuseInitOp
  pub destroy : Option FuseDestroyOp
  pub lookup : Option FuseLookupOp
  pub forget : Option FuseForgetOp
  pub getattr : Option FuseGetAttrOp
  pub setattr : Option FuseSetAttrOp
  pub readlink : Option FuseReadLinkOp
  pub mknod : Option FuseMknodOp
  pub mkdir : Option FuseMkdirOp
  pub unlink : Option FuseUnlinkOp
  pub rmdir : Option FuseRmdirOp
  pub symlink : Option FuseSymlinkOp
  pub rename : Option FuseRenameOp
  pub link : Option FuseLinkOp
  pub open_file : Option FuseOpenOp
  pub read : Option FuseReadOp
  pub write : Option FuseWriteOp
  pub flush : Option FuseFlushOp
  pub release : Option FuseReleaseOp
  pub fsync : Option FuseFSyncOp
  pub opendir : Option FuseOpenDirOp
  pub readdir : Option FuseReadDirOp
  pub releasedir : Option FuseReleaseDirOp
  pub fsyncdir : Option FuseFSyncDirOp
  pub statfs : Option FuseStatFsOp
  pub setxattr : Option FuseSetXAttrOp
  pub getxattr : Option FuseGetXAttrOp
  pub listxattr : Option FuseListXAttrOp
  pub removexattr : Option FuseRemoveXAttrOp
  pub access : Option FuseAccessOp
  pub create : Option FuseCreateOp
  pub getlk : Option FuseGetLkOp
  pub setlk : Option FuseSetLkOp
  pub bmap : Option FuseBMapOp
  pub ioctl : Option FuseIoCtlOp
  pub poll : Option FusePollOp
  pub write_buf : Option FuseWriteBufOp
  pub retrieve_reply : Option FuseRetrieveReplyOp
  pub forget_multi : Option FuseForgetMultiOp
  pub flock : Option FuseFLockOp
  pub fallocate : Option FuseFAllocateOp
  pub readdirplus : Option FuseReadDirPlusOp
  pub copy_file_range : Option FuseCopyFileRangeOp
  pub lseek : Option FuseLSeekOp
