-- ===== src/InodeCache/Ledger/Positive.antt =====
-- The rows of the cache that are not idle: they have a reference.
use pagealignfs.Prelude.{
  ℕ, Bool, Option, none, some, List, [], ◌∷◌, ◌≡◌, refl, sym, ap, ◌+◌, ◌-◌, ◌%◌, ◌<◌, ◌≤◌, ◌==◌,
  arith, leb, true, false, if◌then◌else◌,
}
use pagealignfs.System.{Env}
use pagealignfs.World.{World, Inode, Entry, Key}
use pagealignfs.Effect
use pagealignfs.Effect.{gets, modify}
use pagealignfs.Effect.Fallible
use pagealignfs.Effect.Fallible.{lift}
use pagealignfs.Effect.Returns.{Returns, returns, Returns-bind, Returns-mono}
use pagealignfs.Inode.{entry_at}
use pagealignfs.Inode.Quiet.{destroy_inode-Quiet}
use pagealignfs.InodeCache.{
  key_of, find, set_refcnt, erase, u64, set_count, insert_at, insert, ref_at, ref, unref_at, unref,
  erase_row,
}
use pagealignfs.InodeCache.Counts.{refcnt_of, count_of, IsCache, entry_at-Valid}
use pagealignfs.InodeCache.References.{get_inode-cached}

abbrev pub Positive : List Entry → Type 0
Positive [] = Unit {0}
Positive (x ∷ xs) = (0 < x.refcnt) × Positive xs

Positive-set_refcnt :
    (k : Key) (n : ℕ) (xs : List Entry) → 0 < n → Positive xs → Positive (set_refcnt k n xs)
unfolding set_refcnt
Positive-set_refcnt k n [] h v = tt
Positive-set_refcnt k n (x ∷ xs) h v = ground (arith, Positive-set_refcnt k n xs h)

-- The row goes after its count was written.
Positive-erased :
    (k : Key) (n : ℕ) (xs : List Entry) → Positive xs → Positive (erase k (set_refcnt k n xs))
unfolding set_refcnt erase
Positive-erased k n [] v = tt
Positive-erased k n (x ∷ xs) v = ground (arith, Positive-erased k n xs)

insert_at-Positive :
    (i : Inode) (found : Option Entry) (e : Env) (w : World)
    → refcnt_of found + 1 < u64
    → Positive w.inodes
    → Returns (λ _ w'. Positive w'.inodes) (insert_at i found e w)
unfolding insert_at set_count modify gets Effect.◌>>=◌ Effect.pure
insert_at-Positive i none e w h v = returns (omega arith, v)
insert_at-Positive i (some x) e w h v =
    let k = key_of i in
    let n = (x.refcnt + 1) % u64 in
    let w1 = record w { inodes = set_refcnt k n w.inodes } in
    Returns-bind ((destroy_inode-Quiet i).at e w1) λ _ w' quiet. returns (
      rw (ap {A = World} (λ v. v.inodes) quiet)
        (Positive-set_refcnt k n w.inodes (omega (arith, h)) v))

pub insert-Positive :
    (i : Inode) (e : Env) (w : World)
    → count_of (key_of i) w.inodes + 1 < u64
    → Positive w.inodes
    → Returns (λ _ w'. Positive w'.inodes) (insert i e w)
unfolding insert gets Effect.◌>>=◌
insert-Positive i e w h v = insert_at-Positive i (find (key_of i) w.inodes) e w h v

erase_row-Positive :
    (k : Key) (x : Entry) (e : Env) (w : World)
    → Positive (erase k w.inodes)
    → Returns (λ _ w'. Positive w'.inodes) (erase_row k x e w)
unfolding erase_row modify Effect.◌>>=◌
erase_row-Positive k x e w v =
    Returns-mono ((destroy_inode-Quiet x.inode).at e (record w { inodes = erase k w.inodes }))
      λ _ w' quiet. rw (ap {A = World} (λ u. u.inodes) quiet) v

module _ (ino n : ℕ) (e : Env) (w : World) (x : Entry) (cached : IsCache w)
    (live : entry_at ino w.inodes ≡ some x) (positive : Positive w.inodes) where
  pub ref-Positive :
      0 < x.refcnt → x.refcnt + n < u64 → Returns (λ _ w'. Positive w'.inodes) (ref ino n e w)
  unfolding ref ref_at set_count modify gets lift Fallible.◌>>=◌ Effect.◌>>=◌ Effect.pure
  ref-Positive some_left bound =
      let (h, key, found) = entry_at-Valid ino w.next_address w.inodes x cached.1 live in
      rw (get_inode-cached ino e w x h live, sym key, found)
        (returns (Positive-set_refcnt x.key _ w.inodes (omega (arith, some_left, bound)) positive))

  -- The row goes where no reference is left.
  settle-Positive :
      (k : Key) (left : ℕ) (b : Bool)
      → (b ≡ false → 0 < left)
      → Returns
          (λ _ w'. Positive w'.inodes)
          ((if b then lift (erase_row k x) else Fallible.pure tt) e
            (record w { inodes = set_refcnt k left w.inodes }))
  unfolding lift Effect.◌>>=◌ Effect.pure Fallible.pure
  settle-Positive k left true some_left =
      Returns-bind
        (erase_row-Positive k x e (record w { inodes = set_refcnt k left w.inodes })
          (Positive-erased k left w.inodes positive))
        λ _ w' v. returns v
  settle-Positive k left false some_left =
      returns (Positive-set_refcnt k left w.inodes (some_left refl) positive)

  pub unref-Positive : n ≤ x.refcnt → Returns (λ _ w'. Positive w'.inodes) (unref ino n e w)
  unfolding unref unref_at set_count modify gets lift Fallible.◌>>=◌ Effect.◌>>=◌ Effect.pure
      Fallible.continue
  unref-Positive enough =
      let (h, key, found) = entry_at-Valid ino w.next_address w.inodes x cached.1 live in
      let allowed : leb n x.refcnt ≡ true = ground arith in
      rw (get_inode-cached ino e w x h live, sym key, found, allowed)
        (settle-Positive x.key (x.refcnt - n) (x.refcnt - n == 0) λ h. ground arith)
