-- ===== src/Fs/Descriptors/Cache.antt =====
-- The descriptors that the inodes of the cache own: what Insert, Ref and Unref do to them.
use pagealignfs.Prelude.{
  ℕ, Bool, Bool-cases, true, false, inl, inr, ◌≡◌, refl, arith, ◌+◌, ◌-◌, ◌%◌, leb, Option, none,
  some, if◌then◌else◌,
}
use pagealignfs.System.{Env}
use pagealignfs.System.Calls.{Call}
use pagealignfs.World.{World, Inode, Entry, Key}
use pagealignfs.Effect
use pagealignfs.Effect.{M, call, gets, modify}
use pagealignfs.Effect.Fallible
use pagealignfs.Effect.Fallible.{E, lift, log_if_error}
use pagealignfs.Effect.Keeps.{Keeps, Holds, holds, none_aborted, keeps_rules}
use pagealignfs.Effect.Gives.{Gives, Holds-after}
use pagealignfs.Resource.PollHandle
use pagealignfs.Inode
use pagealignfs.Inode.{
  entry_at, get_inode, set_inode, stat, stat_fd, get_generation, generation_or_read,
}
use pagealignfs.InodeCache.{
  key_of, find, set_refcnt, erase, u64, set_count, insert_at, insert, ref_at, ref, unref_at, unref,
  erase_row,
}
use pagealignfs.Fs.Keeps.{get_inode-Keeps}
use pagealignfs.Fs.Descriptors.{
  HasFd, Accounted, find-HasFd, HaveFds-set_refcnt, length-set_refcnt, HaveFds-erase, length-erase,
}
use pagealignfs.Fs.Descriptors.Owned.{call-Accounted, destroy-Accounted}

module _ (a c : ℕ) where
  -- The destructor of an inode closes its descriptor.
  destroy_inode-Accounted :
      (d : ℕ) (i : Inode)
      → HasFd i
      → Gives (Accounted a c (d + 1)) (λ _. Accounted a c d) (Inode.destroy i)
  unfolding Inode.destroy PollHandle.destroy Effect.◌>>=◌
  destroy_inode-Accounted d i has =
      let dropped : Keeps (Accounted a c (d + 1)) (PollHandle.destroy i.poll_handle) = search (
        keeps_rules,
        call-Accounted a c (d + 1) (Call.fuse_pollhandle_destroy _) (λ rc. refl) refl,
      ) in
      record {
        at = λ e w p.
            Holds-after (dropped.at e w p) λ _ w' q. (destroy-Accounted a c d i.fd has).at e w' q;
      }

  insert_at-Accounted :
      (d : ℕ) (i : Inode) (found : Option Entry) (e : Env) (w : World)
      → HasFd i
      → Accounted a c (d + 1) w
      → Holds (λ _. Accounted a c d) (insert_at i found e w)
  unfolding insert_at set_count modify gets Effect.◌>>=◌ Effect.pure
  insert_at-Accounted d i none e w has (fds, account) = holds ((has, fds), omega (arith, account))
  insert_at-Accounted d i (some x) e w has (fds, account) =
      let k = key_of i in
      let n = (x.refcnt + 1) % u64 in
      let same = length-set_refcnt k n w.inodes in
      Holds-after
        ((destroy_inode-Accounted d i has).at e (record w { inodes = set_refcnt k n w.inodes })
          (HaveFds-set_refcnt k n w.inodes fds, omega (arith, account, same)))
        λ _ w' q. holds q

  pub insert-Accounted :
      (d : ℕ) (i : Inode)
      → HasFd i
      → Gives (Accounted a c (d + 1)) (λ _. Accounted a c d) (insert i)
  unfolding insert gets Effect.◌>>=◌
  insert-Accounted d i has = record {
    at = λ e w p. insert_at-Accounted d i (find (key_of i) w.inodes) e w has p;
  }

  set_count-Accounted : (d : ℕ) (k : Key) (n : ℕ) → Keeps (Accounted a c d) (set_count k n)
  unfolding set_count modify
  set_count-Accounted d k n = record {
    at = λ e w (fds, account).
        let same = length-set_refcnt k n w.inodes in
        holds (HaveFds-set_refcnt k n w.inodes fds, omega (arith, account, same));
  }

  ref_at-Accounted :
      (d : ℕ) (k : Key) (n : ℕ) (found : Option Entry) → Keeps (Accounted a c d) (ref_at k n found)
  unfolding ref_at
  ref_at-Accounted d k n none = search keeps_rules
  ref_at-Accounted d k n (some x) = search (keeps_rules, set_count-Accounted)

  pub ref-Accounted : (d ino n : ℕ) → Keeps (Accounted a c d) (ref ino n)
  unfolding ref
  ref-Accounted d ino n = search (keeps_rules, get_inode-Keeps, ref_at-Accounted)

  -- The row that is given up is that of the key, and its inode is the one that is destroyed.
  erase_row-Accounted :
      (d : ℕ) (k : Key) (n : ℕ) (x : Entry) (e : Env) (w : World)
      → find k w.inodes ≡ some x
      → Accounted a c d w
      → Holds
          (λ _. Accounted a c d)
          (erase_row k x e (record w { inodes = set_refcnt k n w.inodes }))
  unfolding erase_row modify Effect.◌>>=◌
  erase_row-Accounted d k n x e w found (fds, account) =
      let rows = erase k (set_refcnt k n w.inodes) in
      let shorter = length-erase k n w.inodes x found in
      (destroy_inode-Accounted d x.inode (find-HasFd k w.inodes x fds found)).at e
        (record w { inodes = rows })
        (HaveFds-erase k _ (HaveFds-set_refcnt k n w.inodes fds), omega (arith, account, shorter))

  settle-Accounted :
      (d : ℕ) (k : Key) (n : ℕ) (x : Entry) (b : Bool) (e : Env) (w : World)
      → find k w.inodes ≡ some x
      → Accounted a c d w
      → Holds
          (λ _. Accounted a c d)
          ((if b then lift (erase_row k x) else Fallible.pure tt) e
            (record w { inodes = set_refcnt k n w.inodes }))
  unfolding lift Effect.◌>>=◌ Effect.pure Fallible.pure
  settle-Accounted d k n x true e w found p =
      Holds-after (erase_row-Accounted d k n x e w found p) λ _ w' q. holds q
  settle-Accounted d k n x false e w found (fds, account) =
      let same = length-set_refcnt k n w.inodes in
      holds (HaveFds-set_refcnt k n w.inodes fds, omega (arith, account, same))

  unref_at-Accounted :
      (d : ℕ) (k : Key) (n : ℕ) (found : Option Entry) (e : Env) (w : World)
      → find k w.inodes ≡ found
      → Accounted a c d w
      → Holds (λ _. Accounted a c d) (unref_at k n found e w)
  unfolding unref_at set_count modify lift Fallible.◌>>=◌ Effect.◌>>=◌ Effect.pure Fallible.continue
      Fallible.fail Effect.abort
  unref_at-Accounted d k n none e w found p = holds p
  unref_at-Accounted d k n (some x) e w found p = elim (Bool-cases (leb n x.refcnt)) [
    | inl fits ↦ rw fits (settle-Accounted d k (x.refcnt - n) x _ e w found p)
    | inr excess ↦ rw excess none_aborted
  ]

  unref_found-Accounted :
      (d : ℕ) (k : Key) (n : ℕ)
      → Keeps
          (Accounted a c d)
          (Fallible.◌>>=◌ (lift (gets (λ w. find k w.inodes))) (λ found. unref_at k n found))
  unfolding gets lift Fallible.◌>>=◌ Effect.◌>>=◌ Effect.pure Fallible.continue
  unref_found-Accounted d k n = record {
    at = λ e w p. unref_at-Accounted d k n (find k w.inodes) e w refl p;
  }

  pub unref-Accounted : (d ino n : ℕ) → Keeps (Accounted a c d) (unref ino n)
  unfolding unref
  unref-Accounted d ino n = search (keeps_rules, get_inode-Keeps, unref_found-Accounted)
