-- ===== src/Fs/CacheKeeps/Handlers.antt =====
-- The operations that the handlers are made of keep the cache well-formed.
use pagealignfs.Prelude.{ℕ, ◌≡◌, ◌==◌, false, none}
use pagealignfs.System.{Env}
use pagealignfs.World.{World, Key, FusePollHandle}
use pagealignfs.Effect
use pagealignfs.Effect.{M, faulted}
use pagealignfs.Effect.Keeps.{Keeps, Keeps-if}
use pagealignfs.Resource.PollHandle
use pagealignfs.Inode.{get_inode, set_inode, entry_at, add_poll_handle}
use pagealignfs.InodeCache.Counts.{IsCache}
use pagealignfs.InodeCache.Live.{Live, get_inode-Live, set_inode-Live}
use pagealignfs.Effect.Ensures.{Ensures, Ensures-bind, Quiet-Ensures}
use pagealignfs.Inode.Quiet.{destroy_poll_handle-Quiet}
use pagealignfs.Fs.Keeps.{StateKeeps, resource_keeps, destroy_poll_handle-Keeps}
use pagealignfs.Fs.CacheKeeps.{
  calls-IsCache, send-IsCache, insert-IsCache, new_directory-IsCache, delete_directory-IsCache,
  ref-IsCache, unref-IsCache, get_generation-IsCache, on_inode-IsCache, get_inode-faulted,
  set_root-IsCache,
}

-- AddPollHandle with a handle that is set
set_poll_handle : FusePollHandle → ℕ → M (Unit {0})
set_poll_handle handle ino = Effect.◌>>=◌ (get_inode ino) (λ i.
    let (new, old) = PollHandle.move_assign i.poll_handle handle in
    Effect.◌>>◌ (set_inode ino (record i { poll_handle = new })) (PollHandle.destroy old))

set_poll_handle-root : (h : FusePollHandle) → Keeps IsCache (set_poll_handle h 1)
unfolding set_poll_handle
set_poll_handle-root h =
    search (resource_keeps, set_root-IsCache, destroy_poll_handle-Keeps, calls-IsCache) depth 12

set_poll_handle-Live :
    (h : FusePollHandle) (base : Key → ℕ) (p : ℕ) (k : Key) (n : ℕ)
    → Ensures (Live base p k n) (λ _. Live base p k n) (set_poll_handle h p)
unfolding set_poll_handle PollHandle.move_assign
set_poll_handle-Live h base p k n = Ensures-bind _ _ (get_inode-Live base p k n) λ i. record {
  at = λ e w (above, same, l).
      (Ensures-bind _ _ (set_inode-Live base p k n _ same above)
          (λ _. Quiet-Ensures _ (λ _ _ l. l) (destroy_poll_handle-Quiet i.poll_handle))).at
        e w l;
}

set_poll_handle-faulted :
    (h : FusePollHandle) (ino : ℕ) (e : Env) (w : World)
    → (ino == 1) ≡ false
    → entry_at ino w.inodes ≡ none
    → set_poll_handle h ino e w ≡ faulted
unfolding set_poll_handle Effect.◌>>=◌
set_poll_handle-faulted h ino e w other gone = rw (get_inode-faulted ino e w other gone)

add_poll_handle-IsCache : (ino : ℕ) (h : FusePollHandle) → Keeps IsCache (add_poll_handle ino h)
unfolding add_poll_handle set_poll_handle
add_poll_handle-IsCache ino h =
    Keeps-if _ _ _
      (on_inode-IsCache (set_poll_handle h) (set_poll_handle-root h) (set_poll_handle-Live h)
        (set_poll_handle-faulted h) ino)
      (destroy_poll_handle-Keeps calls-IsCache h)

pub state-IsCache : StateKeeps IsCache
state-IsCache = record {
  calls = calls-IsCache;
  at_send = send-IsCache;
  at_insert = insert-IsCache;
  at_new_directory = new_directory-IsCache;
  at_delete_directory = delete_directory-IsCache;
  at_ref = ref-IsCache;
  at_unref = unref-IsCache;
  at_get_generation = get_generation-IsCache;
  at_add_poll_handle = add_poll_handle-IsCache;
}
