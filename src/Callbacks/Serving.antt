-- ===== src/Callbacks/Serving.antt =====
-- The callbacks of a class that fills the interface of Handlers, by how they reply (pafs/fuse_ops.h).
use pagealignfs.Prelude.{ℕ, Option, none, some}
use mathlib.Core.Option
use pagealignfs.World.{World}
use pagealignfs.Effect.{M, fault, abort}
use pagealignfs.Effect.Fallible.{E}
use pagealignfs.Effect.Keeps.{Keeps, Leads, none_aborted, none_faulted}
use pagealignfs.Callbacks.{run_op, called}
use pagealignfs.Callbacks.Class.{FuseOps}
use pagealignfs.Callbacks.LowLevel.{as_fuse_low_level_ops}
use pagealignfs.Callbacks.Handlers.{Each, HandlersKeep}
use pagealignfs.Callbacks.Replying.{replying_failure, replying_always, replying_none, checked}
use pagealignfs.Callbacks.Table.{Callback}

-- From P the ways to reply to a request lead to Q, where the operation that they run keeps R.
pub record Serves (req : ℕ) (P Q R : World → Type 0) : Type 0 where
  pub at_failure :
      (handler : E (Unit {0})) → Keeps R handler → Leads P Q (replying_failure req handler)
  pub at_always :
      (handler : E (Unit {0})) → Keeps R handler → Leads P Q (replying_always req handler)
  pub at_none : (handler : E (Unit {0})) → Keeps R handler → Leads P Q (replying_none req handler)

module _ {P Q : World → Type 0} where
  checked-Leads :
      {A : Type 0} (m : Option A) (run : A → M (Unit {0}))
      → ((a : A) → Leads P Q (run a))
      → Leads P Q (checked m run)
  unfolding checked abort
  checked-Leads none run kr = record { at = λ e w p. none_aborted }
  checked-Leads (some a) run kr = kr a

  called-Leads :
      {H A : Type 0} {K : H → Type 0} (m : Option H) (get : H → A) (run : A → M (Unit {0}))
      → Each m K
      → ((handler : H) → K handler → Leads P Q (run (get handler)))
      → Leads P Q (called (Option.map get m) run)
  unfolding called fault
  called-Leads none get run k kr = record { at = λ e w p. none_faulted }
  called-Leads (some handler) get run k kr = kr handler k

module _ {P Q R : World → Type 0} {req : ℕ} (s : Serves req P Q R) (t : FuseOps)
    (k : HandlersKeep R t) where
  -- Whatever a callback of the table leads to, it does for each class whose operations keep what it
  -- needs.
  pub run_op-Leads : (c : Callback) → Leads P Q (run_op (as_fuse_low_level_ops t) req c)
  unfolding run_op
  run_op-Leads (Callback.lookup parent name) =
      called-Leads t.lookup _ _ k.lookup λ handler kh. s.at_failure _ (kh parent name)
  run_op-Leads (Callback.forget ino nlookup) =
      called-Leads t.forget _ _ k.forget λ handler kh. s.at_none _ (kh ino nlookup)
  run_op-Leads (Callback.getattr ino) =
      called-Leads t.getattr _ _ k.getattr λ handler kh. s.at_failure _ (kh ino)
  run_op-Leads (Callback.setattr ino attr to_set m) =
      called-Leads t.setattr _ _ k.setattr
        λ handler kh. checked-Leads _ _ λ fi. s.at_failure _ (kh ino attr to_set fi)
  run_op-Leads (Callback.readlink ino) =
      called-Leads t.readlink _ _ k.readlink λ handler kh. s.at_failure _ (kh ino)
  run_op-Leads (Callback.mknod parent name mode rdev) =
      called-Leads t.mknod _ _ k.mknod λ handler kh. s.at_failure _ (kh parent name mode rdev)
  run_op-Leads (Callback.mkdir parent name mode) =
      called-Leads t.mkdir _ _ k.mkdir λ handler kh. s.at_failure _ (kh parent name mode)
  run_op-Leads (Callback.unlink parent name) =
      called-Leads t.unlink _ _ k.unlink λ handler kh. s.at_always _ (kh parent name)
  run_op-Leads (Callback.rmdir parent name) =
      called-Leads t.rmdir _ _ k.rmdir λ handler kh. s.at_always _ (kh parent name)
  run_op-Leads (Callback.symlink target parent name) =
      called-Leads t.symlink _ _ k.symlink λ handler kh. s.at_failure _ (kh target parent name)
  run_op-Leads (Callback.rename parent name newparent newname flags) =
      called-Leads t.rename _ _ k.rename
        λ handler kh. s.at_always _ (kh parent name newparent newname flags)
  run_op-Leads (Callback.link ino parent newname) =
      called-Leads t.link _ _ k.link λ handler kh. s.at_failure _ (kh ino parent newname)
  run_op-Leads (Callback.open_file ino m) =
      called-Leads t.open_file _ _ k.open_file
        λ handler kh. checked-Leads _ _ λ fi. s.at_failure _ (kh ino fi)
  run_op-Leads (Callback.read ino size off m) =
      called-Leads t.read _ _ k.read
        λ handler kh. checked-Leads _ _ λ fi. s.at_always _ (kh ino size off fi)
  run_op-Leads (Callback.write ino buf off m) =
      called-Leads t.write _ _ k.write
        λ handler kh. checked-Leads _ _ λ fi. s.at_always _ (kh ino buf off fi)
  run_op-Leads (Callback.flush ino m) =
      called-Leads t.flush _ _ k.flush
        λ handler kh. checked-Leads _ _ λ fi. s.at_always _ (kh ino fi)
  run_op-Leads (Callback.release ino m) =
      called-Leads t.release _ _ k.release
        λ handler kh. checked-Leads _ _ λ fi. s.at_always _ (kh ino fi)
  run_op-Leads (Callback.fsync ino datasync m) =
      called-Leads t.fsync _ _ k.fsync
        λ handler kh. checked-Leads _ _ λ fi. s.at_always _ (kh ino datasync fi)
  run_op-Leads (Callback.opendir ino m) =
      called-Leads t.opendir _ _ k.opendir
        λ handler kh. checked-Leads _ _ λ fi. s.at_failure _ (kh ino fi)
  run_op-Leads (Callback.readdir ino size off m) =
      called-Leads t.readdir _ _ k.readdir
        λ handler kh. checked-Leads _ _ λ fi. s.at_always _ (kh ino size off fi)
  run_op-Leads (Callback.releasedir ino m) =
      called-Leads t.releasedir _ _ k.releasedir
        λ handler kh. checked-Leads _ _ λ fi. s.at_always _ (kh ino fi)
  run_op-Leads (Callback.fsyncdir ino datasync m) =
      called-Leads t.fsyncdir _ _ k.fsyncdir
        λ handler kh. checked-Leads _ _ λ fi. s.at_always _ (kh ino datasync fi)
  run_op-Leads (Callback.statfs ino) =
      called-Leads t.statfs _ _ k.statfs λ handler kh. s.at_failure _ (kh ino)
  run_op-Leads (Callback.setxattr ino name value flags) =
      called-Leads t.setxattr _ _ k.setxattr λ handler kh. s.at_always _ (kh ino name value flags)
  run_op-Leads (Callback.getxattr ino name size) =
      called-Leads t.getxattr _ _ k.getxattr λ handler kh. s.at_failure _ (kh ino name size)
  run_op-Leads (Callback.listxattr ino size) =
      called-Leads t.listxattr _ _ k.listxattr λ handler kh. s.at_failure _ (kh ino size)
  run_op-Leads (Callback.removexattr ino name) =
      called-Leads t.removexattr _ _ k.removexattr λ handler kh. s.at_always _ (kh ino name)
  run_op-Leads (Callback.access ino mask) =
      called-Leads t.access _ _ k.access λ handler kh. s.at_always _ (kh ino mask)
  run_op-Leads (Callback.create ino name mode m) =
      called-Leads t.create _ _ k.create
        λ handler kh. checked-Leads _ _ λ fi. s.at_failure _ (kh ino name mode fi)
  run_op-Leads (Callback.getlk ino m lock) =
      called-Leads t.getlk _ _ k.getlk
        λ handler kh. checked-Leads _ _ λ fi. s.at_failure _ (kh ino fi lock)
  run_op-Leads (Callback.setlk ino m lock sleep) =
      called-Leads t.setlk _ _ k.setlk
        λ handler kh. checked-Leads _ _ λ fi. s.at_failure _ (kh ino fi lock sleep)
  run_op-Leads (Callback.bmap ino blocksize idx) =
      called-Leads t.bmap _ _ k.bmap λ handler kh. s.at_failure _ (kh ino blocksize idx)
  run_op-Leads (Callback.ioctl ino cmd arg m flags in_buf out_bufsz) =
      called-Leads t.ioctl _ _ k.ioctl λ handler kh.
        checked-Leads _ _ λ fi. s.at_failure _ (kh ino cmd arg fi flags in_buf out_bufsz)
  run_op-Leads (Callback.poll ino m ph) =
      called-Leads t.poll _ _ k.poll
        λ handler kh. checked-Leads _ _ λ fi. s.at_failure _ (kh ino fi ph)
  run_op-Leads (Callback.write_buf ino in_buf off fi) =
      called-Leads t.write_buf _ _ k.write_buf λ handler kh. s.at_none _ (kh ino in_buf off fi)
  run_op-Leads (Callback.retrieve_reply cookie ino offset bufv) =
      called-Leads t.retrieve_reply _ _ k.retrieve_reply
        λ handler kh. s.at_none _ (kh cookie ino offset bufv)
  run_op-Leads (Callback.forget_multi forgets) =
      called-Leads t.forget_multi _ _ k.forget_multi λ handler kh. s.at_none _ (kh forgets)
  run_op-Leads (Callback.flock ino m op) =
      called-Leads t.flock _ _ k.flock
        λ handler kh. checked-Leads _ _ λ fi. s.at_always _ (kh ino fi op)
  run_op-Leads (Callback.fallocate ino mode offset len m) =
      called-Leads t.fallocate _ _ k.fallocate
        λ handler kh. checked-Leads _ _ λ fi. s.at_always _ (kh ino mode offset len fi)
  run_op-Leads (Callback.readdirplus ino size off m) =
      called-Leads t.readdirplus _ _ k.readdirplus
        λ handler kh. checked-Leads _ _ λ fi. s.at_always _ (kh ino size off fi)
  run_op-Leads (Callback.copy_file_range ino_in off_in m_in ino_out off_out m_out len flags) =
      called-Leads t.copy_file_range _ _ k.copy_file_range λ handler kh. checked-Leads _ _ λ fi_in.
        checked-Leads _ _
          λ fi_out. s.at_failure _ (kh ino_in off_in fi_in ino_out off_out fi_out len flags)
  run_op-Leads (Callback.lseek ino off whence m) =
      called-Leads t.lseek _ _ k.lseek
        λ handler kh. checked-Leads _ _ λ fi. s.at_failure _ (kh ino off whence fi)
