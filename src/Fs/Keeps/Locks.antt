-- ===== src/Fs/Keeps/Locks.antt =====
-- The handlers for locks and polling keep what the interface keeps.
use pagealignfs.Prelude.{ℕ, Bool}
use pagealignfs.System.Types.{Flock}
use pagealignfs.World.{World, FusePollHandle}
use pagealignfs.Effect.Keeps.{Keeps}
use pagealignfs.Syscalls.Keeps.Files.{file_keeps}
use pagealignfs.Fs.Keeps.{StateKeeps, resource_keeps}
use pagealignfs.Fs.Locks.{get_lk, set_lk, f_lock, poll_ino}

module _ {P : World → Type 0} (k : StateKeeps P) where
  pub get_lk-Keeps : (ino : ℕ) (lock : Flock) → Keeps P (get_lk ino lock)
  unfolding get_lk
  get_lk-Keeps ino lock =
      search (resource_keeps, file_keeps, k.at_add_poll_handle, k.calls, k.at_send) depth 12

  pub set_lk-Keeps : (ino : ℕ) (lock : Flock) (sleep : Bool) → Keeps P (set_lk ino lock sleep)
  unfolding set_lk
  set_lk-Keeps ino lock sleep =
      search (resource_keeps, file_keeps, k.at_add_poll_handle, k.calls, k.at_send) depth 12

  pub f_lock-Keeps : (ino : ℕ) (op : ℕ) → Keeps P (f_lock ino op)
  unfolding f_lock
  f_lock-Keeps ino op =
      search (resource_keeps, file_keeps, k.at_add_poll_handle, k.calls, k.at_send) depth 12

  pub poll_ino-Keeps : (ino : ℕ) (ph : FusePollHandle) → Keeps P (poll_ino ino ph)
  unfolding poll_ino
  poll_ino-Keeps ino ph =
      search (resource_keeps, file_keeps, k.at_add_poll_handle, k.calls, k.at_send) depth 12

pub ruleset lock_keeps = (get_lk-Keeps, set_lk-Keeps, f_lock-Keeps, poll_ino-Keeps)
