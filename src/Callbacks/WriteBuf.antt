-- ===== src/Callbacks/WriteBuf.antt =====
-- The callback for WriteBuf (fuse_ops.h) where libfuse cannot copy the buffer.
use pagealignfs.Prelude.{ℕ, ◌≡◌, refl, Bool-cases, inl, inr, true, some, ◌∷◌}
use pagealignfs.Prelude.Int.{is_negative, negate}
use pagealignfs.System.{Env, Answer}
use pagealignfs.System.Types.{FileInfo, Bufvec}
use pagealignfs.System.Calls.{Call, Reply}
use pagealignfs.World.{World}
use pagealignfs.Status.{is_ok, errno_to_status}
use pagealignfs.Effect
use pagealignfs.Effect.{done, call, modify, gets, asks}
use pagealignfs.Effect.Fallible
use pagealignfs.Effect.Fallible.{lift, log_if_error}
use pagealignfs.Effect.Returns.{Returns, returns}
use pagealignfs.Prelude.Bytes.{text}
use pagealignfs.Syscalls.Errors.{errno_fail}
use pagealignfs.InodeCache.Reach.{IsLive}
use pagealignfs.InodeCache.Generation.{live-IsStored}
use pagealignfs.Request
use pagealignfs.Request.{send_none, reply_none, clear, destroy_pending}
use pagealignfs.Request.DirsBuilder.{fuse_buf_copy}
use pagealignfs.Fs.Files.{bufvec_at, write_buf}
use pagealignfs.Callbacks.{run_callback, run_op, called}
use pagealignfs.Callbacks.Replying.{replying_none, begin}
use pagealignfs.Callbacks.Table.{Callback}

-- The copy that the handler asks libfuse for.
abbrev pub copy_call : Bufvec → (off : ℕ) → FileInfo → Call
copy_call in_buf off fi = Call.fuse_buf_copy (bufvec_at fi in_buf.size off) in_buf 0

-- Where libfuse cannot copy the buffer, the callback for WriteBuf of an inode returns, and the one
-- reply that it sends says nothing of the error.
pub write_buf-silent :
    (req ino : ℕ) (in_buf : Bufvec) (off : ℕ) (fi : FileInfo) (e : Env) (w : World)
    → IsLive ino w
    → is_negative (e.answer w.trace (copy_call in_buf off fi)).rc ≡ true
    → Returns
        (λ _ w'.
          (failed : Answer) × (replied : Answer) × (w'.trace
            ≡ (record { call = Call.fuse_reply req Reply.none; answer = replied })
              ∷ (record { call = copy_call in_buf off fi; answer = failed })
              ∷ w.trace))
        (run_callback req (Callback.write_buf ino in_buf off fi) e w)
unfolding run_callback run_op called replying_none begin modify write_buf fuse_buf_copy errno_fail
    call gets asks lift Fallible.◌>>=◌ Effect.◌>>=◌ Effect.pure Fallible.continue Request.destroy
    destroy_pending log_if_error reply_none send_none clear Fallible.return Fallible.fail
write_buf-silent req ino in_buf off fi e w live failed =
    let w0 = record w { req = some req } in
    let (i, stored) = live-IsStored ino w0 live in
    let ans = e.answer w.trace (copy_call in_buf off fi) in
    elim (Bool-cases (is_ok (errno_to_status e (negate ans.rc) (text "fuse_buf_copy")).code)) [
      | inl fine ↦ rw (stored.reads e, failed, fine) (returns (_, _, refl))
      | inr bad ↦ rw (stored.reads e, failed, bad) (returns (_, _, refl))
    ]
