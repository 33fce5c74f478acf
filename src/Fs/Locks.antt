-- ===== src/Fs/Locks.antt =====
-- The handlers of pafs/page_align_fs.cc for locks and polling.
use pagealignfs.Prelude.{ℕ, Bool, leb, if◌then◌else◌}
use pagealignfs.Prelude.Int.{pos}
use pagealignfs.System.Types.{Flock}
use pagealignfs.System.Constants.{f_getlk, f_setlk, f_setlkw, poll_events}
use pagealignfs.World.{FusePollHandle}
use pagealignfs.Effect.{abort}
use pagealignfs.Effect.Fallible.{E, pure, lift, ◌>>=◌, ◌>>◌}
use pagealignfs.Syscalls.Files.{flock, fcntl, poll}
use pagealignfs.Inode.{get_inode, get_fd, add_poll_handle}
use pagealignfs.Request.Replies.{reply_lock, reply_poll}

unfoldable pub get_lk : ℕ → Flock → E (Unit {0})
unfolding fcntl reply_lock
get_lk ino lock = do
  inode ← lift (get_inode ino)
  held ← fcntl (get_fd inode) f_getlk lock
  reply_lock held

-- It does not reply where the lock is set.
unfoldable pub set_lk : ℕ → Flock → (sleep : Bool) → E (Unit {0})
unfolding fcntl
set_lk ino lock sleep = do
  inode ← lift (get_inode ino)
  _ ← fcntl (get_fd inode) (if sleep then f_setlkw else f_setlk) lock
  pure tt

unfoldable pub f_lock : ℕ → (op : ℕ) → E (Unit {0})
unfolding flock
f_lock ino op = do inode ← lift (get_inode ino); flock (get_fd inode) op

unfoldable pub poll_ino : ℕ → FusePollHandle → E (Unit {0})
unfolding add_poll_handle poll reply_poll
poll_ino ino ph = do
  _ ← lift (get_inode ino)
  lift (add_poll_handle ino ph)
  inode ← lift (get_inode ino)
  (ready_fds, revents) ← poll (get_fd inode) poll_events (pos 0)
  if leb ready_fds 1 then reply_poll revents else lift abort
