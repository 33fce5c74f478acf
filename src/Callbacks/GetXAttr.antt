-- ===== src/Callbacks/GetXAttr.antt =====
-- The callback for GetXAttr (fuse_ops.h) of size 0, by which the kernel asks for the length.
use pagealignfs.Prelude.{ℕ, ◌≡◌, ◌<◌, ◌^◌, refl, arith, leb, false, some}
use pagealignfs.Prelude.Int.{pos, to_u64}
use pagealignfs.Prelude.Bytes.{Text}
use pagealignfs.System.{Env}
use pagealignfs.System.Calls.{Call}
use pagealignfs.World.{World}
use pagealignfs.Effect
use pagealignfs.Effect.{aborted, call, modify, gets, asks, abort}
use pagealignfs.Effect.Fallible
use pagealignfs.Effect.Fallible.{lift}
use pagealignfs.Syscalls.Errors.{checked_value}
use pagealignfs.Syscalls.Tree.{getxattr, getxattr_into}
use pagealignfs.Inode.{proc_path}
use pagealignfs.InodeCache.Reach.{IsLive}
use pagealignfs.InodeCache.Generation.{live-IsStored}
use pagealignfs.Fs.XAttrs.{get_x_attr}
use pagealignfs.Callbacks.{run_callback, run_op, called}
use pagealignfs.Callbacks.Replying.{replying_failure, begin}
use pagealignfs.Callbacks.Table.{Callback}

-- Where the value is not empty, and the C library answers its length to a getxattr of size 0, the
-- callback for GetXAttr of size 0 ends the process.
pub getxattr-aborted :
    (req ino : ℕ) (name : Text) (n : ℕ) (e : Env) (w : World)
    → IsLive ino w
    → 0 < n
    → n < 2 ^ 64
    → ((path : Text) → (e.answer w.trace (Call.getxattr path name 0)).rc ≡ pos n)
    → run_callback req (Callback.getxattr ino name 0) e w ≡ aborted
unfolding run_callback run_op called replying_failure begin modify get_x_attr getxattr getxattr_into
    checked_value proc_path call gets asks abort lift Fallible.◌>>=◌ Effect.◌>>=◌ Effect.pure
    Fallible.continue Fallible.pure
getxattr-aborted req ino name n e w live some_bytes small answered =
    let (i, stored) = live-IsStored ino (record w { req = some req }) live in
    let refused : leb (to_u64 (pos n)) 0 ≡ false = ground arith in
    rw (stored.reads e, answered _, refused) refl
