-- ===== src/Fs/Balance.antt =====
-- The references that a handler of pafs/page_align_fs.cc which answers with an entry gives to the
-- kernel.
pub mod Scope
pub mod Making
use pagealignfs.Prelude.{
  ℕ, ◌+◌, ◌<◌, ◌≡◌, refl, sym, arith, if◌then◌else◌, List, [], ◌∷◌, Option, none, some, inl, inr,
  ◌==◌, Bool-cases,
}
use pagealignfs.Prelude.Bytes.{Text}
use pagealignfs.System.{Env}
use pagealignfs.System.Types.{EntryParam, FileInfo}
use pagealignfs.World.{World, Inode, Key, Entry, FileDescriptor}
use pagealignfs.Status.{StatusOr, ok, err}
use pagealignfs.Effect
use pagealignfs.Effect.{M}
use pagealignfs.Effect.Fallible
use pagealignfs.Effect.Fallible.{E}
use pagealignfs.Effect.Returns.{
  Returns, returns, Returns-mono, Returns-both, Returns-bind, Quiet, Quiet-pure_ok,
}
use pagealignfs.Effect.Ensures.{
  Ensures, Ensures-then, Ensures-lift_then, Ensures-lift, Ensures-weaken, Ensures-bind,
  Quiet-Ensures,
}
use pagealignfs.Inode
use pagealignfs.Inode.{entry_at}
use pagealignfs.Inode.Quiet.{create-Quiet, destroy_inode-Quiet}
use pagealignfs.Syscalls.Quiet.{openat-Quiet}
use pagealignfs.InodeCache.{
  eqb_key, key_of, u64, find, set_refcnt, set_count, insert, insert_at, with_shared,
}
use pagealignfs.InodeCache.Counts.{count_of, IsCache, find-eqb_key}
use pagealignfs.InodeCache.Live.{Live, insert-Live}
use pagealignfs.Request.Replies.{reply_entry}
use pagealignfs.Fs.Entries.{
  find_or_create_inode, reply_in_scope, reply_with_entry, reply_with_lookup, lookup,
}
use pagealignfs.InodeCache.Reach.{IsLive, get_inode-IsLive, insert-IsLive}
use pagealignfs.Fs.Balance.Scope.{Settled, body-Sent, scope-Settled, send-Live}

-- The cache holds these rows.
abbrev pub Rows : World → World → Type 0
Rows w0 w = IsCache w × (w.inodes ≡ w0.inodes)

-- The inode was found, or made, and has one reference more than it had; `q` leads to an inode.
abbrev Found : World → ℕ → StatusOr ℕ → World → Type 0
Found w0 q (ok p) w =
    (k : Key) × (1 < p)
    × IsLive q w
    × Live (λ j. count_of j w0.inodes) p k (count_of k w0.inodes + 1) w
Found w0 q (err _) w = Rows w0 w

-- After a success the kernel holds one reference more, to one key; after a failure the counts are
-- what they were.
abbrev pub IsBalanced : World → StatusOr (Unit {0}) → World → Type 0
IsBalanced w0 (ok _) w =
    (k : Key) × ((j : Key)
      → count_of j w.inodes ≡ count_of j w0.inodes + (if eqb_key k j then 1 else 0))
IsBalanced w0 (err _) w = (j : Key) → count_of j w.inodes ≡ count_of j w0.inodes

-- The reply leaves the cache as it is, whichever inode is held.
abbrev pub IsReply : (EntryParam → E (Unit {0})) → Type 0
IsReply reply =
    (base : Key → ℕ) (p : ℕ) (k : Key) (n : ℕ) (param : EntryParam)
    → Ensures (Live base p k n) (λ _. Live base p k n) (reply param)

-- The rows are as they were, and `q` leads to an inode.
abbrev pub Before : World → ℕ → World → Type 0
Before w0 q w = IsLive q w × Rows w0 w

module _ (w0 : World) (bound : (j : Key) → count_of j w0.inodes + 2 < u64) (parent : ℕ) where
  insert-Found : (i : Inode) → Ensures (Before w0 parent) (λ p. Found w0 parent (ok p)) (insert i)
  insert-Found i = record {
    at = λ e w (live, (cached, same)).
        let k = key_of i in
        let enough = bound k in
        let fits : count_of k w.inodes + 1 < u64 = rw same (omega (arith, enough)) in
        Returns-both (insert-IsLive parent i e w live) (insert-Live i e w cached fits)
          λ p w' there (h, l). (k, h, there, rw (sym same) l);
  }

  pub Quiet-Before :
      {A : Type 0} (m : M A) → Quiet m → Ensures (Before w0 parent) (λ _. Before w0 parent) m
  Quiet-Before m km = Quiet-Ensures m (λ w t l. l) km

  pub get_inode-Before : Ensures (Before w0 parent) (λ _. Before w0 parent) (Inode.get_inode parent)
  get_inode-Before = get_inode-IsLive parent (λ w l. l.0)

  find_or_create-Found :
      (name : Text)
      → Ensures (Before w0 parent) (Found w0 parent) (find_or_create_inode parent name)
  unfolding find_or_create_inode
  find_or_create-Found name = Ensures-lift_then _ _ get_inode-Before λ i.
      Ensures-then _ _ (Quiet-Before _ (create-Quiet _ _))
        (λ inode. Ensures-lift _ (insert-Found inode) (λ p w l. l)) (λ st w l. l.1)

  Settled-IsBalanced :
      (p : ℕ) (k : Key) (some_left : 0 < count_of k w0.inodes + 1)
      (enough : count_of k w0.inodes + 1 + 1 < u64) (r : StatusOr (Unit {0})) (w : World)
      → Settled (λ j. count_of j w0.inodes) p k (count_of k w0.inodes + 1) some_left enough r w
      → IsCache w × IsBalanced w0 r w
  unfolding Settled
  Settled-IsBalanced p k some_left enough (ok _) w (cached, counts) =
      (cached, (k, λ j. ground (arith, counts j, find-eqb_key k j w0.inodes)))
  Settled-IsBalanced p k some_left enough (err _) w (cached, counts) =
      (cached, λ j. ground (arith, counts j, find-eqb_key k j w0.inodes))

  module _ (reply : EntryParam → E (Unit {0})) (kr : IsReply reply) where
    with_shared-IsBalanced :
        (p : ℕ)
        → Ensures
            (Found w0 parent (ok p))
            (λ r w. IsCache w × IsBalanced w0 r w)
            (with_shared p (reply_in_scope parent p reply))
    with_shared-IsBalanced p = record {
      at = λ e w (k, h, live, l).
          let base : Key → ℕ = λ j. count_of j w0.inodes in
          let n = count_of k w0.inodes + 1 in
          let some_left : 0 < n = omega arith in
          let enough : n + 1 < u64 = omega (arith, bound k) in
          let body = body-Sent base p k n some_left enough parent reply (kr base p k (n + 1)) in
          Returns-mono ((scope-Settled base p k n some_left enough _ body).at e w (live, l))
            (Settled-IsBalanced p k some_left enough);
    }

    pub reply_with_entry-IsBalanced :
        (name : Text)
        → Ensures
            (Before w0 parent)
            (λ r w. IsCache w × IsBalanced w0 r w)
            (reply_with_entry parent name reply)
    unfolding reply_with_entry
    reply_with_entry-IsBalanced name =
        Ensures-then _ _ (find_or_create-Found name) with_shared-IsBalanced
          (λ st w (cached, same). (cached, λ j. rw same refl))

    -- The same after a step that touches no inode, and whose failure is the answer.
    pub then_reply-IsBalanced :
        {A : Type 0} (m : E A) (name : Text)
        → Quiet m
        → Ensures
            (Before w0 parent)
            (λ r w. IsCache w × IsBalanced w0 r w)
            (Fallible.◌>>=◌ m (λ _. reply_with_entry parent name reply))
    then_reply-IsBalanced m name km =
        Ensures-then _ _ (Quiet-Before m km) (λ _. reply_with_entry-IsBalanced name)
          (λ st w (_, (cached, same)). (cached, λ j. rw same refl))

-- A Lookup below an inode, on a well-formed cache with room for two references more, returns and
-- keeps the cache well-formed. Where its answer is OK, the kernel was given one reference to one
-- key, and where it is a failure none; no other count differs from what it was.
pub lookup-IsBalanced :
    (parent : ℕ) (name : Text) (e : Env) (w : World)
    → IsLive parent w
    → IsCache w
    → ((j : Key) → count_of j w.inodes + 2 < u64)
    → Returns (λ r w'. IsCache w' × IsBalanced w r w') (lookup parent name e w)
unfolding lookup reply_with_lookup reply_entry
lookup-IsBalanced parent name e w live cached bound =
    (Ensures-lift_then _ _ (get_inode-Before w bound parent) λ _.
        reply_with_entry-IsBalanced w bound parent reply_entry
          (λ base p k n param. send-Live base p k n _ _) name).at
      e w (live, (cached, refl))
