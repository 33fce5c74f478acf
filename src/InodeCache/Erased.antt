-- ===== src/InodeCache/Erased.antt =====
-- What Unref of pafs/inode.cc leaves of the rows: the one that it finds, with its new count or gone,
-- and the others.
use pagealignfs.Prelude.{
  ℕ, Bool, ◌-◌, ◌<◌, ◌≤◌, ◌≡◌, refl, sym, ap, arith, Option, none, some, List, [], ◌∷◌, true, false,
  ◌==◌, leb, if◌then◌else◌,
}
use pagealignfs.System.{Env}
use pagealignfs.World.{World, Entry, Key}
use pagealignfs.Status.{ok}
use pagealignfs.Effect
use pagealignfs.Effect.{modify, gets}
use pagealignfs.Effect.Fallible
use pagealignfs.Effect.Fallible.{lift}
use pagealignfs.Effect.Returns.{Returns, returns, Returns-bind}
use pagealignfs.Inode.{entry_at}
use pagealignfs.InodeCache.{
  eqb_key, find, set_refcnt, erase, u64, set_count, unref_at, unref, erase_row,
}
use pagealignfs.InodeCache.Counts.{
  Valid, entry_at-Valid, IsCache, find-eqb_key, find-Valid, Valid-set_refcnt, Valid-erase,
}
use pagealignfs.InodeCache.References.{get_inode-cached}
use pagealignfs.Inode.Quiet.{destroy_inode-Quiet}

find-set_found :
    (k j : Key) (n : ℕ) (xs : List Entry) (x : Entry)
    → find k xs ≡ some x
    → find j (set_refcnt k n xs)
      ≡ (if eqb_key k j then some (record x { refcnt = n }) else find j xs)
unfolding find set_refcnt
find-set_found k j n [] x h = cc
find-set_found k j n (y ∷ xs) x h = ground (arith, find-set_found k j n xs x)

find-after_erase :
    (k j : Key) (next : ℕ) (xs : List Entry)
    → Valid next xs
    → find j (erase k xs) ≡ (if eqb_key k j then none else find j xs)
unfolding find erase
find-after_erase k j next [] v = ground arith
find-after_erase k j next (x ∷ xs) v =
    ground (arith, find-after_erase k j next xs, find-eqb_key x.key j xs)

-- The row of the key, if any of it is left.
abbrev pub row_with : Entry → ℕ → Option Entry
row_with x left = if left == 0 then none else some (record x { refcnt = left })

-- The cache stays well-formed, the key has the given row, and every other row is as it was.
abbrev pub HasRow : Key → Option Entry → World → World → Type 0
HasRow k row w w' =
    IsCache w' × ((j : Key) → find j w'.inodes ≡ (if eqb_key k j then row else find j w.inodes))

HasRow-quiet :
    (k : Key) (row : Option Entry) (w w1 w2 : World)
    → HasRow k row w w1
    → w2 ≡ record w1 { trace = w2.trace }
    → HasRow k row w w2
HasRow-quiet k row w w1 w2 (cached, rows) quiet =
    let same = ap {A = World} (λ v. v.inodes) quiet in
    let next = ap {A = World} (λ v. v.next_address) quiet in rw (same, next) (cached, rows)

module _ (k : Key) (w : World) (x : Entry) (cached : IsCache w)
    (found : find k w.inodes ≡ some x) where
  HasRow-set :
      (n : ℕ)
      → n < u64
      → HasRow k (some (record x { refcnt = n })) w (record w { inodes = set_refcnt k n w.inodes })
  HasRow-set n bound = (
    (cached.0, Valid-set_refcnt k n w.next_address w.inodes bound cached.1),
    λ j. find-set_found k j n w.inodes x found,
  )

  HasRow-erase :
      (row : Option Entry) (w1 : World)
      → HasRow k row w w1
      → HasRow k none w (record w1 { inodes = erase k w1.inodes })
  HasRow-erase row w1 (cached1, rows) = (
    (cached1.0, Valid-erase k w1.next_address w1.inodes cached1.1),
    λ j. ground (arith, find-after_erase k j w1.next_address w1.inodes cached1.1, rows j),
  )

  drop_empty-HasRow :
      (left : ℕ) (b : Bool) (e : Env) (w1 : World)
      → HasRow k (some (record x { refcnt = left })) w w1
      → Returns
          (λ r w'.
            (r ≡ ok tt) × HasRow k (if b then none else some (record x { refcnt = left })) w w')
          ((if b then lift (erase_row k x) else Fallible.pure tt) e w1)
  unfolding lift erase_row modify Effect.◌>>=◌ Effect.pure Fallible.pure
  drop_empty-HasRow left false e w1 before = returns (refl, before)
  drop_empty-HasRow left true e w1 before =
      let w2 = record w1 { inodes = erase k w1.inodes } in
      Returns-bind ((destroy_inode-Quiet x.inode).at e w2)
        λ _ w' quiet. returns (refl, HasRow-quiet k none w w2 w' (HasRow-erase _ w1 before) quiet)

  unref_at-HasRow :
      (n : ℕ) (e : Env)
      → n ≤ x.refcnt
      → Returns
          (λ r w'. (r ≡ ok tt) × HasRow k (row_with x (x.refcnt - n)) w w')
          (unref_at k n (some x) e w)
  unfolding unref_at set_count modify lift Fallible.◌>>=◌ Effect.◌>>=◌ Effect.pure Fallible.continue
  unref_at-HasRow n e enough =
      let allowed : leb n x.refcnt ≡ true = ground arith in
      let left = x.refcnt - n in
      let bound : left < u64 =
        omega (arith, find-Valid k w.next_address w.inodes x cached.1 found) in
      rw allowed (
        drop_empty-HasRow left (left == 0) e (record w { inodes = set_refcnt k left w.inodes })
          (HasRow-set left bound))

-- On a well-formed cache, Unref of no more references than a cached inode has returns OK. The row
-- of its key is gone where no reference is left, and where some are, it has that many and is
-- otherwise the same; every other row is as it was, and the cache stays well-formed.
pub unref-HasRow :
    (ino n : ℕ) (e : Env) (w : World) (x : Entry)
    → IsCache w
    → entry_at ino w.inodes ≡ some x
    → n ≤ x.refcnt
    → Returns
        (λ r w'. (r ≡ ok tt) × HasRow x.key (row_with x (x.refcnt - n)) w w')
        (unref ino n e w)
unfolding unref gets lift Fallible.◌>>=◌ Effect.◌>>=◌ Effect.pure Fallible.continue
unref-HasRow ino n e w x cached live enough =
    let (h, key, found) = entry_at-Valid ino w.next_address w.inodes x cached.1 live in
    rw (get_inode-cached ino e w x h live, sym key, found)
      (unref_at-HasRow x.key w x cached found n e enough)
