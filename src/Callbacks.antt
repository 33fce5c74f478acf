-- ===== src/Callbacks.antt =====
-- pafs/fuse_ops.h: the operations that libfuse may call of a class (Concepts, Class), the callbacks
-- that are made of them (Ops), and the table of these that libfuse is given (LowLevel). A callback
-- takes the request over, runs the operation, replies as its kind demands, and destroys the
-- FuseRequest (Replying). `fi` may be a null pointer (`none`), which the callbacks that read it
-- refuse by a CHECK.
pub mod Table
pub mod Replying
pub mod Concepts
pub mod Class
pub mod Ops
pub mod LowLevel
pub mod Handlers
pub mod Serving
pub mod PageAlign
pub mod Returning
pub mod Steady
pub mod Owed
pub mod OneReply
pub mod Directed
pub mod SetLk
pub mod Keeps
pub mod Cache
pub mod Forgets
pub mod WriteBuf
pub mod GetXAttr
use pagealignfs.Prelude.{ℕ, Option, none, some}
use pagealignfs.Effect.{M, fault}
use pagealignfs.Fs.Class.{page_align_fs}
use pagealignfs.Callbacks.Table.{Callback}
use pagealignfs.Callbacks.LowLevel.{FuseLowlevelOps, as_fuse_low_level_ops}

-- The call of a member of the table: a null pointer cannot be called.
unfoldable pub called : {A : Type 0} → Option A → (A → M (Unit {0})) → M (Unit {0})
unfolding fault
called none run = fault
called (some member) run = run member

-- What libfuse calls of a table for a request.
unfoldable pub run_op : FuseLowlevelOps → ℕ → Callback → M (Unit {0})
unfolding called
run_op ops req (Callback.lookup parent name) = called ops.lookup λ member. member req parent name
run_op ops req (Callback.forget ino nlookup) = called ops.forget λ member. member req ino nlookup
run_op ops req (Callback.getattr ino) = called ops.getattr λ member. member req ino
run_op ops req (Callback.setattr ino attr to_set fi) =
    called ops.setattr λ member. member req ino attr to_set fi
run_op ops req (Callback.readlink ino) = called ops.readlink λ member. member req ino
run_op ops req (Callback.mknod parent name mode rdev) =
    called ops.mknod λ member. member req parent name mode rdev
run_op ops req (Callback.mkdir parent name mode) =
    called ops.mkdir λ member. member req parent name mode
run_op ops req (Callback.unlink parent name) = called ops.unlink λ member. member req parent name
run_op ops req (Callback.rmdir parent name) = called ops.rmdir λ member. member req parent name
run_op ops req (Callback.symlink target parent name) =
    called ops.symlink λ member. member req target parent name
run_op ops req (Callback.rename parent name newparent newname flags) =
    called ops.rename λ member. member req parent name newparent newname flags
run_op ops req (Callback.link ino parent newname) =
    called ops.link λ member. member req ino parent newname
run_op ops req (Callback.open_file ino fi) = called ops.open_file λ member. member req ino fi
run_op ops req (Callback.read ino size off fi) =
    called ops.read λ member. member req ino size off fi
run_op ops req (Callback.write ino buf off fi) =
    called ops.write λ member. member req ino buf off fi
run_op ops req (Callback.flush ino fi) = called ops.flush λ member. member req ino fi
run_op ops req (Callback.release ino fi) = called ops.release λ member. member req ino fi
run_op ops req (Callback.fsync ino datasync fi) =
    called ops.fsync λ member. member req ino datasync fi
run_op ops req (Callback.opendir ino fi) = called ops.opendir λ member. member req ino fi
run_op ops req (Callback.readdir ino size off fi) =
    called ops.readdir λ member. member req ino size off fi
run_op ops req (Callback.releasedir ino fi) = called ops.releasedir λ member. member req ino fi
run_op ops req (Callback.fsyncdir ino datasync fi) =
    called ops.fsyncdir λ member. member req ino datasync fi
run_op ops req (Callback.statfs ino) = called ops.statfs λ member. member req ino
run_op ops req (Callback.setxattr ino name value flags) =
    called ops.setxattr λ member. member req ino name value flags
run_op ops req (Callback.getxattr ino name size) =
    called ops.getxattr λ member. member req ino name size
run_op ops req (Callback.listxattr ino size) = called ops.listxattr λ member. member req ino size
run_op ops req (Callback.removexattr ino name) =
    called ops.removexattr λ member. member req ino name
run_op ops req (Callback.access ino mask) = called ops.access λ member. member req ino mask
run_op ops req (Callback.create ino name mode fi) =
    called ops.create λ member. member req ino name mode fi
run_op ops req (Callback.getlk ino fi lock) = called ops.getlk λ member. member req ino fi lock
run_op ops req (Callback.setlk ino fi lock sleep) =
    called ops.setlk λ member. member req ino fi lock sleep
run_op ops req (Callback.bmap ino blocksize idx) =
    called ops.bmap λ member. member req ino blocksize idx
run_op ops req (Callback.ioctl ino cmd arg fi flags in_buf out_bufsz) =
    called ops.ioctl λ member. member req ino cmd arg fi flags in_buf out_bufsz
run_op ops req (Callback.poll ino fi ph) = called ops.poll λ member. member req ino fi ph
run_op ops req (Callback.write_buf ino in_buf off fi) =
    called ops.write_buf λ member. member req ino in_buf off fi
run_op ops req (Callback.retrieve_reply cookie ino offset bufv) =
    called ops.retrieve_reply λ member. member req cookie ino offset bufv
run_op ops req (Callback.forget_multi forgets) =
    called ops.forget_multi λ member. member req forgets
run_op ops req (Callback.flock ino fi op) = called ops.flock λ member. member req ino fi op
run_op ops req (Callback.fallocate ino mode offset len fi) =
    called ops.fallocate λ member. member req ino mode offset len fi
run_op ops req (Callback.readdirplus ino size off fi) =
    called ops.readdirplus λ member. member req ino size off fi
run_op ops req (Callback.copy_file_range ino_in off_in fi_in ino_out off_out fi_out len flags) =
    called ops.copy_file_range
      λ member. member req ino_in off_in fi_in ino_out off_out fi_out len flags
run_op ops req (Callback.lseek ino off whence fi) =
    called ops.lseek λ member. member req ino off whence fi

-- What libfuse calls of the table of PageAlignFS.
unfoldable pub run_callback : ℕ → Callback → M (Unit {0})
unfolding run_op called
run_callback = run_op (as_fuse_low_level_ops page_align_fs)
