-- ===== src/Callbacks/Handlers.antt =====
-- An interface of a class that libfuse serves: each operation that it has keeps an invariant.
use pagealignfs.Prelude.{ℕ, Bool, List, Option, none, some}
use pagealignfs.Prelude.Bytes.{Text}
use pagealignfs.System.Types.{Stat, FileInfo, Bufvec, Flock, ToSet, ForgetData}
use pagealignfs.World.{World, FusePollHandle}
use pagealignfs.Effect.Keeps.{Keeps}
use pagealignfs.Callbacks.Class.{FuseOps}

-- The operation is absent, or it is as K says.
abbrev pub Each : {H : Type 0} → Option H → (H → Type 0) → Type 0
Each none K = Unit {0}
Each (some handler) K = K handler

pub record HandlersKeep (R : World → Type 0) (t : FuseOps) : Type 0 where
  pub lookup : Each t.lookup λ handler. (parent : ℕ) → (name : Text) → Keeps R (handler parent name)
  pub forget : Each t.forget λ handler. (ino : ℕ) → (nlookup : ℕ) → Keeps R (handler ino nlookup)
  pub getattr : Each t.getattr λ handler. (ino : ℕ) → Keeps R (handler ino)
  pub setattr : Each t.setattr λ handler.
      (ino : ℕ)
      → (attr : Stat) → (to_set : ToSet) → (fi : FileInfo) → Keeps R (handler ino attr to_set fi)
  pub readlink : Each t.readlink λ handler. (ino : ℕ) → Keeps R (handler ino)
  pub mknod : Each t.mknod λ handler.
      (parent : ℕ)
      → (name : Text) → (mode : ℕ) → (rdev : ℕ) → Keeps R (handler parent name mode rdev)
  pub mkdir :
      Each t.mkdir
        λ handler. (parent : ℕ) → (name : Text) → (mode : ℕ) → Keeps R (handler parent name mode)
  pub unlink : Each t.unlink λ handler. (parent : ℕ) → (name : Text) → Keeps R (handler parent name)
  pub rmdir : Each t.rmdir λ handler. (parent : ℕ) → (name : Text) → Keeps R (handler parent name)
  pub symlink : Each t.symlink λ handler.
      (target : Text) → (parent : ℕ) → (name : Text) → Keeps R (handler target parent name)
  pub rename : Each t.rename λ handler.
      (parent : ℕ)
      → (name : Text) → (newparent : ℕ) → (newname : Text) → (flags : ℕ)
      → Keeps R (handler parent name newparent newname flags)
  pub link :
      Each t.link λ handler.
        (ino : ℕ) → (parent : ℕ) → (newname : Text) → Keeps R (handler ino parent newname)
  pub open_file : Each t.open_file λ handler. (ino : ℕ) → (fi : FileInfo) → Keeps R (handler ino fi)
  pub read : Each t.read λ handler.
      (ino : ℕ) → (size : ℕ) → (off : ℕ) → (fi : FileInfo) → Keeps R (handler ino size off fi)
  pub write : Each t.write λ handler.
      (ino : ℕ) → (buf : Text) → (off : ℕ) → (fi : FileInfo) → Keeps R (handler ino buf off fi)
  pub flush : Each t.flush λ handler. (ino : ℕ) → (fi : FileInfo) → Keeps R (handler ino fi)
  pub release : Each t.release λ handler. (ino : ℕ) → (fi : FileInfo) → Keeps R (handler ino fi)
  pub fsync :
      Each t.fsync λ handler.
        (ino : ℕ) → (datasync : Bool) → (fi : FileInfo) → Keeps R (handler ino datasync fi)
  pub opendir : Each t.opendir λ handler. (ino : ℕ) → (fi : FileInfo) → Keeps R (handler ino fi)
  pub readdir : Each t.readdir λ handler.
      (ino : ℕ) → (size : ℕ) → (off : ℕ) → (fi : FileInfo) → Keeps R (handler ino size off fi)
  pub releasedir :
      Each t.releasedir λ handler. (ino : ℕ) → (fi : FileInfo) → Keeps R (handler ino fi)
  pub fsyncdir :
      Each t.fsyncdir λ handler.
        (ino : ℕ) → (datasync : Bool) → (fi : FileInfo) → Keeps R (handler ino datasync fi)
  pub statfs : Each t.statfs λ handler. (ino : ℕ) → Keeps R (handler ino)
  pub setxattr : Each t.setxattr λ handler.
      (ino : ℕ)
      → (name : Text) → (value : Text) → (flags : ℕ) → Keeps R (handler ino name value flags)
  pub getxattr :
      Each t.getxattr
        λ handler. (ino : ℕ) → (name : Text) → (size : ℕ) → Keeps R (handler ino name size)
  pub listxattr : Each t.listxattr λ handler. (ino : ℕ) → (size : ℕ) → Keeps R (handler ino size)
  pub removexattr :
      Each t.removexattr λ handler. (ino : ℕ) → (name : Text) → Keeps R (handler ino name)
  pub access : Each t.access λ handler. (ino : ℕ) → (mask : ℕ) → Keeps R (handler ino mask)
  pub create : Each t.create λ handler.
      (ino : ℕ) → (name : Text) → (mode : ℕ) → (fi : FileInfo) → Keeps R (handler ino name mode fi)
  pub getlk :
      Each t.getlk
        λ handler. (ino : ℕ) → (fi : FileInfo) → (lock : Flock) → Keeps R (handler ino fi lock)
  pub setlk : Each t.setlk λ handler.
      (ino : ℕ)
      → (fi : FileInfo) → (lock : Flock) → (sleep : Bool) → Keeps R (handler ino fi lock sleep)
  pub bmap :
      Each t.bmap
        λ handler. (ino : ℕ) → (blocksize : ℕ) → (idx : ℕ) → Keeps R (handler ino blocksize idx)
  pub ioctl : Each t.ioctl λ handler.
      (ino : ℕ)
      → (cmd : ℕ) → (arg : ℕ) → (fi : FileInfo) → (flags : ℕ) → (in_buf : Text) → (out_bufsz : ℕ)
      → Keeps R (handler ino cmd arg fi flags in_buf out_bufsz)
  pub poll :
      Each t.poll
        λ handler. (ino : ℕ) → (fi : FileInfo) → (ph : FusePollHandle) → Keeps R (handler ino fi ph)
  pub write_buf : Each t.write_buf λ handler.
      (ino : ℕ)
      → (in_buf : Bufvec) → (off : ℕ) → (fi : FileInfo) → Keeps R (handler ino in_buf off fi)
  pub retrieve_reply : Each t.retrieve_reply λ handler.
      (cookie : ℕ)
      → (ino : ℕ) → (offset : ℕ) → (bufv : Bufvec) → Keeps R (handler cookie ino offset bufv)
  pub forget_multi :
      Each t.forget_multi λ handler. (forgets : List ForgetData) → Keeps R (handler forgets)
  pub flock :
      Each t.flock λ handler. (ino : ℕ) → (fi : FileInfo) → (op : ℕ) → Keeps R (handler ino fi op)
  pub fallocate : Each t.fallocate λ handler.
      (ino : ℕ)
      → (mode : ℕ) → (offset : ℕ) → (len : ℕ) → (fi : FileInfo)
      → Keeps R (handler ino mode offset len fi)
  pub readdirplus : Each t.readdirplus λ handler.
      (ino : ℕ) → (size : ℕ) → (off : ℕ) → (fi : FileInfo) → Keeps R (handler ino size off fi)
  pub copy_file_range : Each t.copy_file_range λ handler.
      (ino_in : ℕ)
      → (off_in : ℕ) → (fi_in : FileInfo) → (ino_out : ℕ) → (off_out : ℕ) → (fi_out : FileInfo)
      → (len : ℕ) → (flags : ℕ)
      → Keeps R (handler ino_in off_in fi_in ino_out off_out fi_out len flags)
  pub lseek : Each t.lseek λ handler.
      (ino : ℕ) → (off : ℕ) → (whence : ℕ) → (fi : FileInfo) → Keeps R (handler ino off whence fi)
