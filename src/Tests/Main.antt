-- ===== src/Tests/Main.antt =====
-- The theorems on the process at concrete inputs.
use pagealignfs.Prelude.{ℕ, List, [], ◌∷◌, ◌≡◌, refl, some, true, false}
use pagealignfs.Prelude.Bytes.{text}
use pagealignfs.Effect.Keeps.{Holds}
use pagealignfs.Callbacks.Table.{Callback}
use pagealignfs.Process.{CmdlineOpts, main}
use pagealignfs.Process.Scopes.{held}
use pagealignfs.Process.Release.{main-Releases}
use pagealignfs.Tests.Dispatch.{dispatch, dispatch-Open}
use pagealignfs.Tests.Sample.{sample, mounted}

abbrev a_cmdline : CmdlineOpts
a_cmdline = record {
  mountpoint = some (text "/mnt");
  show_help = false;
  show_version = false;
  foreground = true;
  singlethread = false;
  clone_fd = false;
  max_idle_threads = 10;
  max_threads = 10;
}

abbrev two_requests : List (ℕ × Callback)
two_requests = (11, Callback.lookup 1 (text "a")) ∷ (12, Callback.getattr 1) ∷ []

main-Releases_example :
    Holds
      (λ _ w. held w.trace ≡ some [])
      (main a_cmdline mounted.opts (dispatch two_requests) sample mounted)
unfolding held
main-Releases_example =
    main-Releases a_cmdline mounted.opts (dispatch two_requests) (dispatch-Open two_requests) []
      sample mounted refl
