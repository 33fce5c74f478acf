-- ===== src/Tests/Callbacks.antt =====
-- The callbacks of a class at concrete inputs.
use pagealignfs.Prelude.{ℕ, ◌≡◌, ◌+◌, refl, inl, false, none, some}
use pagealignfs.Prelude.Bytes.{text}
use pagealignfs.System.Types.{FileInfo}
use pagealignfs.Effect.Fallible
use pagealignfs.Effect.Keeps.{Holds, keeps_rules}
use pagealignfs.Fs.Class.{page_align_fs}
use pagealignfs.Callbacks.{run_op, run_callback}
use pagealignfs.Callbacks.Class.{FuseOps}
use pagealignfs.Callbacks.LowLevel.{as_fuse_low_level_ops}
use pagealignfs.Callbacks.Handlers.{HandlersKeep}
use pagealignfs.Callbacks.PageAlign.{page_align_fs-HandlersKeep}
use pagealignfs.Callbacks.Table.{Callback}
use pagealignfs.Callbacks.Steady.{run_callback-steady}
use pagealignfs.Effect.Returns.{Returns}
use pagealignfs.Callbacks.Owed.{replies, Owed, state-Owed}
use pagealignfs.Callbacks.OneReply.{run_op-one_reply}
use pagealignfs.Callbacks.Directed.{replies_to, run_callback-replied}
use pagealignfs.Tests.Sample.{sample, mounted, looked_up}

abbrev no_flags : FileInfo
no_flags = record { flags = 0; fh = 5; noflush = false; parallel_direct_writes = false; others = 0 }

run_callback-replied_example :
    Holds
      (λ _ w.
        (replies w.trace ≡ replies mounted.trace + 1)
        × (replies_to 11 w.trace ≡ replies_to 11 mounted.trace + 1)
        × (w.req ≡ none))
      (run_callback 11 (Callback.getattr 1) sample mounted)
run_callback-replied_example = run_callback-replied 11 (Callback.getattr 1) sample mounted refl

-- A class that has Write too, and answers it with OK.
abbrev writing : FuseOps
writing = record page_align_fs { write = some (λ ino buf off fi. Fallible.pure tt) }

writing-HandlersKeep : (n : ℕ) → HandlersKeep (Owed n) writing
writing-HandlersKeep n =
    let k = page_align_fs-HandlersKeep (state-Owed n) in
    record {
      lookup = k.lookup;
      forget = k.forget;
      getattr = k.getattr;
      setattr = k.setattr;
      readlink = k.readlink;
      mknod = k.mknod;
      mkdir = k.mkdir;
      unlink = k.unlink;
      rmdir = k.rmdir;
      symlink = k.symlink;
      rename = k.rename;
      link = k.link;
      open_file = k.open_file;
      read = k.read;
      write = λ ino buf off fi. search keeps_rules;
      flush = k.flush;
      release = k.release;
      fsync = k.fsync;
      opendir = k.opendir;
      readdir = k.readdir;
      releasedir = k.releasedir;
      fsyncdir = k.fsyncdir;
      statfs = k.statfs;
      setxattr = k.setxattr;
      getxattr = k.getxattr;
      listxattr = k.listxattr;
      removexattr = k.removexattr;
      access = k.access;
      create = k.create;
      getlk = k.getlk;
      setlk = k.setlk;
      bmap = k.bmap;
      ioctl = k.ioctl;
      poll = k.poll;
      write_buf = k.write_buf;
      retrieve_reply = k.retrieve_reply;
      forget_multi = k.forget_multi;
      flock = k.flock;
      fallocate = k.fallocate;
      readdirplus = k.readdirplus;
      copy_file_range = k.copy_file_range;
      lseek = k.lseek;
    }

run_op-one_reply_example :
    Holds
      (λ _ w. (replies w.trace ≡ replies mounted.trace + 1) × (w.req ≡ none))
      (run_op
        (as_fuse_low_level_ops writing)
        11
        (Callback.write 1 (text "ab") 0 (some no_flags))
        sample
        mounted)
run_op-one_reply_example =
    run_op-one_reply writing writing-HandlersKeep 11
      (Callback.write 1 (text "ab") 0 (some no_flags)) sample mounted refl

run_callback-steady_example :
    Returns
      (λ _ w.
        (replies w.trace ≡ replies looked_up.trace + 1)
        × (w ≡ record looked_up { trace = w.trace }))
      (run_callback 11 (Callback.rename 1 (text "a") 1 (text "b") 0) sample looked_up)
run_callback-steady_example =
    run_callback-steady 11 (Callback.rename 1 (text "a") 1 (text "b") 0) sample looked_up
      (inl refl, inl refl) refl
