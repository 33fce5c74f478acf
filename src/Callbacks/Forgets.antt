-- ===== src/Callbacks/Forgets.antt =====
-- The callback for Forget (fuse_ops.h), from libfuse down to the rows of the cache.
use pagealignfs.Prelude.{ℕ, ◌+◌, ◌-◌, ◌≤◌, ◌≡◌, some, none, refl, arith}
use pagealignfs.System.{Env}
use pagealignfs.World.{World, Entry, Key}
use pagealignfs.Effect
use pagealignfs.Effect.{modify}
use pagealignfs.Effect.Fallible
use pagealignfs.Effect.Fallible.{E, lift, log_if_error}
use pagealignfs.Effect.Returns.{Returns, returns, Returns-mono, Quiet-pure}
use pagealignfs.Effect.Gives.{Returns-Holds_both}
use pagealignfs.Effect.Ensures.{Ensures, Ensures-bind, Quiet-Ensures, IsTraceless}
use pagealignfs.Inode.{entry_at}
use pagealignfs.InodeCache.Counts.{IsCache, count_of, entry_at-Valid}
use pagealignfs.InodeCache.References.{Sets, get_inode-cached, unref-Sets}
use pagealignfs.Request.Kept.{IsRequestless, reply_none-Kept, destroy-Kept}
use pagealignfs.Fs.Entries.{forget}
use pagealignfs.Callbacks.{run_callback, run_op, called}
use pagealignfs.Callbacks.Table.{Callback}
use pagealignfs.Callbacks.Replying.{begin, replying_none}
use pagealignfs.Callbacks.Owed.{replies}
use pagealignfs.Callbacks.OneReply.{run_callback-one_reply}

module _ {P Q : World → Type 0} (before : IsRequestless P) (traceless : IsTraceless Q)
    (after : IsRequestless Q) where
  begin-Ensures : (req : ℕ) → Ensures P (λ _. P) (begin req)
  unfolding begin modify
  begin-Ensures req = record { at = λ e w p. returns (before w (some req) p) }

  -- A callback that logs a failure and replies nothing does what its handler does.
  replying_none-Ensures :
      (req : ℕ) (handler : E (Unit {0}))
      → Ensures P (λ _. Q) handler
      → Ensures P (λ _. Q) (replying_none req handler)
  unfolding replying_none log_if_error
  replying_none-Ensures req handler km =
      Ensures-bind _ _
        (Ensures-bind _ _
          (Ensures-bind _ _ (begin-Ensures req)
            λ _. Ensures-bind _ _ km λ _. Quiet-Ensures _ traceless (Quiet-pure tt))
          λ _. reply_none-Kept traceless after)
        λ _. destroy-Kept traceless after

module _ (ino n : ℕ) (w : World) (x : Entry) (enough : n ≤ x.refcnt) where
  -- The inode is cached, and the counts are as they were.
  abbrev Cached : World → Type 0
  Cached v =
      IsCache v
      × (entry_at ino v.inodes ≡ some x)
      × ((j : Key) → count_of j v.inodes ≡ count_of j w.inodes)

  forget-Sets : Ensures Cached (λ _. Sets x.key (x.refcnt - n) w) (forget ino n)
  unfolding forget lift Fallible.◌>>=◌ Effect.◌>>=◌ Effect.pure Fallible.continue
  forget-Sets = record {
    at = λ e v (cached, live, counts).
        let (h, key, found) = entry_at-Valid ino v.next_address v.inodes x cached.1 live in
        rw (get_inode-cached ino e v x h live) (
          Returns-mono (unref-Sets ino n e v x cached live enough)
            λ r w' (_, (cached', sets)). (cached', λ j. ground (arith, sets j, counts j)));
  }

  -- The callback for Forget of no more references than a cached inode has, with no request pending,
  -- returns: the key of the inode has that many references less, no other count changes, the cache
  -- stays well-formed, and one reply was sent.
  pub forget-settled :
      (req : ℕ) (e : Env)
      → IsCache w
      → entry_at ino w.inodes ≡ some x
      → w.req ≡ none
      → Returns
          (λ _ w'.
            Sets x.key (x.refcnt - n) w w'
            × (replies w'.trace ≡ replies w.trace + 1)
            × (w'.req ≡ none))
          (run_callback req (Callback.forget ino n) e w)
  unfolding run_callback run_op called
  forget-settled req e cached live idle =
      Returns-Holds_both
        ((replying_none-Ensures {P = Cached} (λ v q p. p) (λ v t p. p) (λ v q p. p) req _
            forget-Sets).at
          e w (cached, live, λ j. refl))
        (run_callback-one_reply req (Callback.forget ino n) e w idle)
        λ _ w' sets one. (sets, one.0, one.1)
