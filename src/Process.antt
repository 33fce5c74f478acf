-- ===== src/Process.antt =====
-- pafs/main.cc: the life of the process. What the command line says is a parameter, and so is the
-- session loop, which is libfuse's and runs the callbacks.
pub mod Scopes
pub mod Release
use pagealignfs.Prelude.{ℕ, Bool, List, [], ◌∷◌, Option, none, some, ◌==◌, not, if◌then◌else◌}
use pagealignfs.Prelude.Int.{ℤ, pos, eqb_ℤ}
use pagealignfs.Prelude.Bytes.{Text, text}
use pagealignfs.System.Calls.{Call, SessionCall}
use pagealignfs.World.{World, Entry, Inode, Options}
use pagealignfs.Status.{StatusOr, ok, err}
use pagealignfs.Effect
use pagealignfs.Effect.{M, gets, modify, call, abort}
use pagealignfs.Effect.Fallible.{E, pure, lift, finally, ◌>>=◌, ◌>>◌}
use pagealignfs.Inode
use pagealignfs.Fs.Entries.{create_fs}

-- struct fuse_cmdline_opts, as fuse_parse_cmdline fills it
pub record CmdlineOpts : Type 0 where
  pub mountpoint : Option Text
  pub show_help : Bool
  pub show_version : Bool
  pub foreground : Bool
  pub singlethread : Bool
  pub clone_fd : Bool
  pub max_idle_threads : ℕ
  pub max_threads : ℕ

abbrev exit_success : ℤ
exit_success = pos 0

abbrev exit_failure : ℤ
exit_failure = pos 1

-- a call whose result is not read
unfoldable pub invoke : SessionCall → M (Unit {0})
invoke c = Effect.◌>>=◌ (call (Call.session c)) λ _. Effect.pure tt

unfoldable pub destroy_rows : List Entry → M (Unit {0})
unfolding Inode.destroy Effect.pure
destroy_rows [] = Effect.pure tt
destroy_rows (x ∷ xs) = Effect.◌>>◌ (Inode.destroy x.inode) (destroy_rows xs)

-- ~PageAlignFS: the cache, and then the root
unfoldable pub destroy_fs : M (Unit {0})
unfolding destroy_rows Inode.destroy Effect.◌>>=◌
destroy_fs =
    Effect.◌>>=◌ (gets (λ w. w)) λ w. Effect.◌>>◌ (destroy_rows w.inodes) (Inode.destroy w.root)

module _ (cmdline : CmdlineOpts) (flags : Options) (session_loop : M ℤ) where
  -- fuse_session_loop_mt, with its configuration
  unfoldable pub loop_threads : (config : ℕ) → E ℤ
  unfolding invoke
  loop_threads config =
      finally
        (do
          lift (invoke (SessionCall.cfg_set_clone_fd config cmdline.clone_fd))
          lift (invoke (SessionCall.cfg_set_idle_threads config cmdline.max_idle_threads))
          lift (invoke (SessionCall.cfg_set_max_threads config cmdline.max_threads))
          lift session_loop)
        (invoke (SessionCall.cfg_destroy config))

  -- from `fuse_daemonize` on
  unfoldable pub run_session : E ℤ
  unfolding loop_threads invoke
  run_session = do
    lift (invoke (SessionCall.daemonize cmdline.foreground))
    if cmdline.singlethread then lift session_loop else (do
      a ← lift (call (Call.session SessionCall.cfg_create))
      if a.number == 0 then lift abort else loop_threads a.number)

  -- from `fuse_session_mount` on
  unfoldable pub mount_session : (session : ℕ) → (mountpoint : Text) → E ℤ
  unfolding run_session invoke
  mount_session session mountpoint = do
    a ← lift (call (Call.session (SessionCall.mount session mountpoint)))
    if eqb_ℤ a.rc (pos 0)
        then finally run_session (invoke (SessionCall.unmount session))
        else pure exit_failure

  -- from `fuse_set_signal_handlers` on
  unfoldable pub handle_signals : (session : ℕ) → (mountpoint : Text) → E ℤ
  unfolding mount_session invoke
  handle_signals session mountpoint = do
    a ← lift (call (Call.session (SessionCall.set_signal_handlers session)))
    if eqb_ℤ a.rc (pos 0)
        then finally (mount_session session mountpoint)
            (invoke (SessionCall.remove_signal_handlers session))
        else pure exit_failure

  -- from `fuse_session_new` on
  unfoldable pub open_session : (mountpoint : Text) → E ℤ
  unfolding handle_signals invoke
  open_session mountpoint = do
    a ← lift (call (Call.session SessionCall.new_session))
    if a.number == 0
        then pure exit_failure
        else finally (handle_signals a.number mountpoint)
            (invoke (SessionCall.destroy_session a.number))

  -- from `PageAlignFS::Create` on; what it made is destroyed at the end
  unfoldable pub serve_mountpoint : Option Text → E ℤ
  unfolding open_session create_fs destroy_fs invoke
  serve_mountpoint none = do
    lift (invoke (SessionCall.print (text "TODO usage here")))
    pure exit_failure
  serve_mountpoint (some mountpoint) = do
    root ← create_fs mountpoint
    lift (modify λ w. record w { root = root; inodes = []; opts = flags })
    finally (open_session mountpoint) destroy_fs

  -- what follows the command line
  unfoldable pub serve : E ℤ
  unfolding serve_mountpoint invoke
  serve =
      if cmdline.show_help
      then (do
        lift (invoke SessionCall.cmdline_help)
        lift (invoke SessionCall.lowlevel_help)
        pure exit_success)
      else (if cmdline.show_version
          then (do
            lift (invoke (SessionCall.print (text "FUSE library version ")))
            lift (invoke SessionCall.lowlevel_version)
            pure exit_success)
          else serve_mountpoint cmdline.mountpoint)

  -- pafs::Main
  unfoldable pub run_main : E ℤ
  unfolding serve invoke
  run_main =
      finally
        (do
          a ← lift (call (Call.session SessionCall.parse_cmdline))
          if eqb_ℤ a.rc (pos 0)
              then finally serve (invoke SessionCall.free_mountpoint)
              else pure exit_failure)
        (invoke SessionCall.opt_free_args)

  unfoldable pub exit_code : StatusOr ℤ → M ℤ
  unfolding invoke
  exit_code (ok n) = Effect.pure n
  exit_code (err st) =
      Effect.◌>>◌ (invoke (SessionCall.print st.message)) (Effect.pure exit_failure)

  -- main
  unfoldable pub main : M ℤ
  unfolding run_main exit_code
  main = Effect.◌>>=◌ run_main exit_code
