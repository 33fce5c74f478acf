-- ===== src/Fs/Descriptors/Lookups.antt =====
-- What Lookup and Unref do to the open descriptors.
use pagealignfs.Prelude.{ℕ, ◌+◌, ◌<◌, ◌≡◌, ◌≤◌, some, arith, length}
use pagealignfs.Prelude.Bytes.{Text}
use pagealignfs.System.{Env}
use pagealignfs.World.{World, Key, Entry}
use pagealignfs.Effect.Keeps.{Keeps, Keeps-try, keeps_rules}
use pagealignfs.Effect.Returns.{Returns}
use pagealignfs.Effect.Gives.{Returns-Holds_both}
use pagealignfs.Status.{ok}
use pagealignfs.Inode.{entry_at}
use pagealignfs.InodeCache.{u64, unref}
use pagealignfs.InodeCache.References.{unref-Sets}
use pagealignfs.InodeCache.Counts.{count_of, IsCache}
use pagealignfs.InodeCache.Reach.{IsLive}
use pagealignfs.Request.Replies.{reply_entry}
use pagealignfs.Fs.Entries.{lookup, reply_with_lookup}
use pagealignfs.Fs.Keeps.{get_inode-Keeps}
use pagealignfs.Fs.Balance.{lookup-IsBalanced}
use pagealignfs.Fs.Descriptors.{HaveFds, Accounted, opens, closes}
use pagealignfs.Fs.Descriptors.Cache.{unref-Accounted}
use pagealignfs.Fs.Descriptors.Entries.{reply_with_entry-Accounted, send-Accounted}

lookup-Accounted : (a c d parent : ℕ) (name : Text) → Keeps (Accounted a c d) (lookup parent name)
unfolding lookup reply_with_lookup reply_entry
lookup-Accounted a c d parent name = Keeps-try _ _ (search (keeps_rules, get_inode-Keeps)) λ _.
    reply_with_entry-Accounted a c d reply_entry (λ param. send-Accounted a c d _ _) parent name

-- A Lookup below an inode, on a well-formed cache with room for two references more whose inodes
-- all have a descriptor, returns, whether it succeeds or fails: each inode has its descriptor, and
-- the calls opened as many descriptors as they closed and as there are more inodes than before.
pub lookup-no_leak :
    (parent : ℕ) (name : Text) (e : Env) (w : World)
    → IsLive parent w
    → IsCache w
    → HaveFds w.inodes
    → ((j : Key) → count_of j w.inodes + 2 < u64)
    → Returns
        (λ _ w'.
          HaveFds w'.inodes
          × (opens w'.trace + closes w.trace + length w.inodes
              ≡ opens w.trace + closes w'.trace + length w'.inodes))
        (lookup parent name e w)
lookup-no_leak parent name e w live cached fds room =
    let start : Accounted (opens w.trace) (closes w.trace + length w.inodes) 0 w =
      (fds, omega arith) in
    Returns-Holds_both (lookup-IsBalanced parent name e w live cached room)
      ((lookup-Accounted _ _ 0 parent name).at e w start)
      λ r w' _ (fds', account). (fds', omega (arith, account))

-- Unref of no more references than a cached inode has, on a well-formed cache whose inodes all have
-- a descriptor, returns OK: each inode has its descriptor, and the calls closed as many descriptors
-- as they opened and as there are fewer inodes than before.
pub unref-no_leak :
    (ino n : ℕ) (e : Env) (w : World) (x : Entry)
    → IsCache w
    → HaveFds w.inodes
    → entry_at ino w.inodes ≡ some x
    → n ≤ x.refcnt
    → Returns
        (λ r w'.
          (r ≡ ok tt)
          × HaveFds w'.inodes
          × (opens w'.trace + closes w.trace + length w.inodes
              ≡ opens w.trace + closes w'.trace + length w'.inodes))
        (unref ino n e w)
unref-no_leak ino n e w x cached fds live enough =
    let start : Accounted (opens w.trace) (closes w.trace + length w.inodes) 0 w =
      (fds, omega arith) in
    Returns-Holds_both (unref-Sets ino n e w x cached live enough)
      ((unref-Accounted _ _ 0 ino n).at e w start)
      λ r w' (fine, _) (fds', account). (fine, fds', omega (arith, account))
