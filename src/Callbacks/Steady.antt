-- ===== src/Callbacks/Steady.antt =====
-- The callbacks that change no state of the program, and what they need of it to end well.
use pagealignfs.Prelude.{ℕ, ◌≡◌, ◌+◌, refl, ap, sym, ◌∙◌, Option, none, some}
use pagealignfs.System.{Env}
use pagealignfs.World.{World}
use pagealignfs.Effect.Returns.{Returns}
use pagealignfs.Effect.Ensures.{IsTraceless}
use pagealignfs.Effect.Proper.{Stays}
use pagealignfs.Effect.Gives.{Returns-Holds_both}
use pagealignfs.InodeCache.Reach.{IsLive}
use pagealignfs.Request.Kept.{IsRequestless}
use pagealignfs.Fs.Steady.{Lives, handler_proper}
use pagealignfs.Callbacks.{run_callback, run_op, called}
use pagealignfs.Callbacks.Table.{Callback}
use pagealignfs.Callbacks.Replying.{checked}
use pagealignfs.Callbacks.Returning.{
  replying_failure-Stays, replying_always-Stays, replying_none-Stays,
}
use pagealignfs.Callbacks.Owed.{replies}
use pagealignfs.Callbacks.OneReply.{run_callback-one_reply}

-- A callback that only reads the state, whose inodes are live, and whose fuse_file_info is there
-- where the callback reads it.
abbrev pub IsSteady : Callback → World → Type 0
IsSteady (Callback.getattr ino) w = IsLive ino w
IsSteady (Callback.setattr ino attr to_set (some fi)) w = IsLive ino w
IsSteady (Callback.readlink ino) w = IsLive ino w
IsSteady (Callback.unlink parent name) w = IsLive parent w
IsSteady (Callback.rmdir parent name) w = IsLive parent w
IsSteady (Callback.rename parent name newparent newname flags) w =
    IsLive parent w × IsLive newparent w
IsSteady (Callback.open_file ino (some fi)) w = IsLive ino w
IsSteady (Callback.read ino size off (some fi)) w = IsLive ino w
IsSteady (Callback.flush ino (some fi)) w = IsLive ino w
IsSteady (Callback.release ino (some fi)) w = IsLive ino w
IsSteady (Callback.fsync ino datasync (some fi)) w = IsLive ino w
IsSteady (Callback.statfs ino) w = IsLive ino w
IsSteady (Callback.setxattr ino name value flags) w = IsLive ino w
IsSteady (Callback.listxattr ino size) w = IsLive ino w
IsSteady (Callback.removexattr ino name) w = IsLive ino w
IsSteady (Callback.access ino mask) w = IsLive ino w
IsSteady (Callback.getlk ino (some fi) lock) w = IsLive ino w
IsSteady (Callback.setlk ino (some fi) lock sleep) w = IsLive ino w
IsSteady (Callback.write_buf ino in_buf off fi) w = IsLive ino w
IsSteady (Callback.flock ino (some fi) op) w = IsLive ino w
IsSteady (Callback.fallocate ino mode offset len (some fi)) w = IsLive ino w
IsSteady
      (Callback.copy_file_range ino_in off_in (some fi_in) ino_out off_out (some fi_out) len flags)
      w =
    IsLive ino_in w × IsLive ino_out w
IsSteady (Callback.lseek ino off whence (some fi)) w = IsLive ino w
IsSteady _ w = ⊥

-- Nothing differs but the trace and the pending request.
abbrev Unchanged : World → World → Type 0
Unchanged w0 w = w ≡ record w0 { trace = w.trace; req = w.req }

module _ (w0 : World) where
  Unchanged-IsTraceless : IsTraceless (Unchanged w0)
  Unchanged-IsTraceless w t h = ap {A = World} (λ v. record v { trace = t }) h

  Unchanged-IsRequestless : IsRequestless (Unchanged w0)
  Unchanged-IsRequestless w q h = ap {A = World} (λ v. record v { req = q }) h

  Unchanged-Lives : (ino : ℕ) → IsLive ino w0 → Lives (Unchanged w0) ino
  Unchanged-Lives ino live w h = let rows = ap {A = World} (λ v. v.inodes) h in rw rows live

ruleset steady_callbacks = (
  handler_proper, replying_failure-Stays, replying_always-Stays, replying_none-Stays,
  Unchanged-IsTraceless, Unchanged-IsRequestless, Unchanged-Lives,
)

run_callback-Stays :
    (req : ℕ) (c : Callback) (w0 : World)
    → IsSteady c w0
    → Stays (Unchanged w0) (run_callback req c)
unfolding run_callback run_op called checked
run_callback-Stays req (Callback.rename parent name newparent newname flags) w0 (from, to) =
    search steady_callbacks
run_callback-Stays req
      (Callback.copy_file_range ino_in off_in (some fi_in) ino_out off_out (some fi_out) len flags)
      w0 (from, to) =
    search steady_callbacks
run_callback-Stays req (Callback.setattr ino attr to_set (some fi)) w0 h = search steady_callbacks
run_callback-Stays req (Callback.open_file ino (some fi)) w0 h = search steady_callbacks
run_callback-Stays req (Callback.read ino size off (some fi)) w0 h = search steady_callbacks
run_callback-Stays req (Callback.flush ino (some fi)) w0 h = search steady_callbacks
run_callback-Stays req (Callback.release ino (some fi)) w0 h = search steady_callbacks
run_callback-Stays req (Callback.fsync ino datasync (some fi)) w0 h = search steady_callbacks
run_callback-Stays req (Callback.getlk ino (some fi) lock) w0 h = search steady_callbacks
run_callback-Stays req (Callback.setlk ino (some fi) lock sleep) w0 h = search steady_callbacks
run_callback-Stays req (Callback.flock ino (some fi) op) w0 h = search steady_callbacks
run_callback-Stays req (Callback.fallocate ino mode offset len (some fi)) w0 h =
    search steady_callbacks
run_callback-Stays req (Callback.lseek ino off whence (some fi)) w0 h = search steady_callbacks
run_callback-Stays req _ w0 h = search steady_callbacks

-- A callback that only reads the state, of live inodes and with a fuse_file_info where it reads one,
-- with no request pending, returns in any environment: it has sent exactly one reply more, and
-- nothing else of the state is changed.
pub run_callback-steady :
    (req : ℕ) (c : Callback) (e : Env) (w : World)
    → IsSteady c w
    → w.req ≡ none
    → Returns
        (λ _ w'. (replies w'.trace ≡ replies w.trace + 1) × (w' ≡ record w { trace = w'.trace }))
        (run_callback req c e w)
run_callback-steady req c e w steady idle =
    Returns-Holds_both ((run_callback-Stays req c w steady).at e w refl)
      (run_callback-one_reply req c e w idle)
      λ _ w' same (one, idle').
        let settled = idle' ∙ sym idle in
        (one, same ∙ ap {A = Option ℕ} (λ q. record w { trace = w'.trace; req = q }) settled)
