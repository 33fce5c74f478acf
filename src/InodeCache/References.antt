-- ===== src/InodeCache/References.antt =====
-- What Insert, Ref and Unref of pafs/inode.cc do to the reference counts.
use pagealignfs.Prelude.{
  ℕ, Bool, ◌+◌, ◌-◌, ◌%◌, ◌<◌, ◌≤◌, ◌≡◌, refl, sym, ap, arith, Option, none, some, ◌∷◌, true, false,
  ◌==◌, leb, if◌then◌else◌,
}
use pagealignfs.System.{Env}
use pagealignfs.World.{World, Inode, Entry, Key}
use pagealignfs.Status.{ok}
use pagealignfs.Effect
use pagealignfs.Effect.{M, Run, done, aborted, modify, gets}
use pagealignfs.Effect.Fallible
use pagealignfs.Effect.Fallible.{lift}
use pagealignfs.Effect.Returns.{Returns, returns, Returns-bind, Returns-mono}
use pagealignfs.Inode
use pagealignfs.Inode.{entry_at, get_inode}
use pagealignfs.InodeCache.{
  eqb_key, key_of, find, set_refcnt, erase, u64, set_count, insert_at, insert, ref_at, ref,
  unref_at, unref, erase_row,
}
use pagealignfs.InodeCache.Counts.{
  entry_at-Valid, refcnt_of, count_of, IsCache, entry_at-fresh, Valid-mono, find-Valid,
  count_of-set_refcnt, Valid-set_refcnt, count_of-erase, Valid-erase,
}
use pagealignfs.Inode.Quiet.{destroy_inode-Quiet}

-- The cache stays well-formed, the key has the given count, and no other count changes.
abbrev pub Sets : Key → ℕ → World → World → Type 0
Sets k n w w' =
    IsCache w'
    × ((j : Key) → count_of j w'.inodes ≡ (if eqb_key k j then n else count_of j w.inodes))

module _ (k : Key) where
  Sets-quiet :
      (n : ℕ) (w w1 w2 : World)
      → Sets k n w w1
      → w2 ≡ record w1 { trace = w2.trace }
      → Sets k n w w2
  Sets-quiet n w w1 w2 (cached, counts) quiet =
      let rows = ap {A = World} (λ v. v.inodes) quiet in
      let next = ap {A = World} (λ v. v.next_address) quiet in rw (rows, next) (cached, counts)

  Sets-then : (m n : ℕ) (w w1 w2 : World) → Sets k m w w1 → Sets k n w1 w2 → Sets k n w w2
  Sets-then m n w w1 w2 (_, counts1) (cached, counts2) =
      (cached, λ j. ground (arith, counts1 j, counts2 j))

  Sets-set_refcnt :
      (n : ℕ) (w : World) (x : Entry)
      → IsCache w
      → find k w.inodes ≡ some x
      → n < u64
      → Sets k n w (record w { inodes = set_refcnt k n w.inodes })
  Sets-set_refcnt n w x (h, v) found bound = (
    (h, Valid-set_refcnt k n w.next_address w.inodes bound v),
    λ j. count_of-set_refcnt k j n w.inodes x found,
  )

  Sets-erase : (w : World) → IsCache w → Sets k 0 w (record w { inodes = erase k w.inodes })
  Sets-erase w (h, v) = (
    (h, Valid-erase k w.next_address w.inodes v),
    λ j. count_of-erase k j w.next_address w.inodes v,
  )

pub Sets-new :
    (i : Inode) (w : World)
    → IsCache w
    → find (key_of i) w.inodes ≡ none
    → Sets (key_of i) 1 w (record w {
      inodes =
          (record { key = key_of i; refcnt = 1; inode = i; address = w.next_address }) ∷ w.inodes;
      next_address = w.next_address + 1;
    })
unfolding find
Sets-new i w (h, v) absent = (
  (
    omega arith,
    (
      refl,
      omega arith,
      h,
      omega arith,
      absent,
      entry_at-fresh _ _ _ (omega arith) v,
      Valid-mono _ _ _ (omega arith) v,
    ),
  ),
  λ j. ground arith,
)

insert_at-Sets :
    (i : Inode) (found : Option Entry) (e : Env) (w : World)
    → IsCache w
    → find (key_of i) w.inodes ≡ found
    → Returns (λ p w'. Sets (key_of i) ((refcnt_of found + 1) % u64) w w') (insert_at i found e w)
unfolding insert_at set_count modify gets Effect.◌>>=◌ Effect.pure
insert_at-Sets i none e w cached absent = returns (Sets-new i w cached absent)
insert_at-Sets i (some x) e w cached found =
    let k = key_of i in
    let w1 = record w { inodes = set_refcnt k ((x.refcnt + 1) % u64) w.inodes } in
    Returns-bind ((destroy_inode-Quiet i).at e w1) λ _ w' quiet.
      returns (Sets-quiet k _ w w1 w' (Sets-set_refcnt k _ w x cached found (omega arith)) quiet)

-- Insert returns; the key of the inode has one reference more, modulo 2^64, no other count changes,
-- and the cache stays well-formed.
pub insert-Sets :
    (i : Inode) (e : Env) (w : World)
    → IsCache w
    → Returns
        (λ p w'. Sets (key_of i) ((count_of (key_of i) w.inodes + 1) % u64) w w')
        (insert i e w)
unfolding insert gets Effect.◌>>=◌
insert-Sets i e w cached = insert_at-Sets i (find (key_of i) w.inodes) e w cached refl

pub get_inode-cached :
    (ino : ℕ) (e : Env) (w : World) (x : Entry)
    → 1 < ino
    → entry_at ino w.inodes ≡ some x
    → get_inode ino e w ≡ done x.inode w
unfolding get_inode Inode.or_fault gets Effect.◌>>=◌ Effect.pure
get_inode-cached ino e w x h found =
    let other : (ino == 1) ≡ false = ground arith in rw (other, found)

module _ (ino n : ℕ) (e : Env) (w : World) (x : Entry) (cached : IsCache w)
    (live : entry_at ino w.inodes ≡ some x) where
  -- Ref returns OK; the key has as many references more, modulo 2^64, no other count changes, and
  -- the cache stays well-formed.
  pub ref-Sets :
      Returns (λ r w'. (r ≡ ok tt) × Sets x.key ((x.refcnt + n) % u64) w w') (ref ino n e w)
  unfolding ref ref_at set_count modify gets lift Fallible.◌>>=◌ Effect.◌>>=◌ Effect.pure
  ref-Sets =
      let (h, key, found) = entry_at-Valid ino w.next_address w.inodes x cached.1 live in
      rw (get_inode-cached ino e w x h live, sym key, found)
        (returns (refl, Sets-set_refcnt x.key _ w x cached found (omega arith)))

  erase_row-Sets :
      (k : Key)
      → find k w.inodes ≡ some x
      → (w1 : World) → Sets k 0 w w1
      → IsCache w1
      → Returns (λ _ w'. Sets k 0 w w') (erase_row k x e w1)
  unfolding erase_row modify Effect.◌>>=◌
  erase_row-Sets k found w1 before cached1 =
      let w2 = record w1 { inodes = erase k w1.inodes } in
      Returns-mono ((destroy_inode-Quiet x.inode).at e w2) λ _ w' quiet.
        Sets-quiet k 0 w w2 w' (Sets-then k 0 0 w w1 w2 before (Sets-erase k w1 cached1)) quiet

  drop_empty-Sets :
      (k : Key) (left : ℕ) (b : Bool) (w1 : World)
      → (b ≡ true → left ≡ 0)
      → find k w.inodes ≡ some x
      → Sets k left w w1
      → Returns
          (λ r w'. (r ≡ ok tt) × Sets k left w w')
          ((if b then lift (erase_row k x) else Fallible.pure tt) e w1)
  unfolding lift Effect.◌>>=◌ Effect.pure Fallible.pure
  drop_empty-Sets k left false w1 empty found before = returns (refl, before)
  drop_empty-Sets k left true w1 empty found before =
      let gone = empty refl in
      Returns-bind (erase_row-Sets k found w1 (rw (sym gone) before) before.0)
        λ _ w' after. returns (refl, rw gone after)

  unref_at-Sets :
      (k : Key)
      → find k w.inodes ≡ some x
      → n ≤ x.refcnt
      → Returns (λ r w'. (r ≡ ok tt) × Sets k (x.refcnt - n) w w') (unref_at k n (some x) e w)
  unfolding unref_at set_count modify lift Fallible.◌>>=◌ Effect.◌>>=◌ Effect.pure Fallible.continue
  unref_at-Sets k found enough =
      let allowed : leb n x.refcnt ≡ true = ground arith in
      let left = x.refcnt - n in
      let bound : left < u64 =
        omega (arith, find-Valid k w.next_address w.inodes x cached.1 found) in
      rw allowed (
        drop_empty-Sets k left (left == 0) (record w { inodes = set_refcnt k left w.inodes })
          (λ h. ground arith) found (Sets-set_refcnt k left w x cached found bound))

  -- Unref of no more references than there are returns OK: the key has that many less, no
  -- other count changes, and the cache stays well-formed.
  pub unref-Sets :
      n ≤ x.refcnt
      → Returns (λ r w'. (r ≡ ok tt) × Sets x.key (x.refcnt - n) w w') (unref ino n e w)
  unfolding unref gets lift Fallible.◌>>=◌ Effect.◌>>=◌ Effect.pure Fallible.continue
  unref-Sets enough =
      let (h, key, found) = entry_at-Valid ino w.next_address w.inodes x cached.1 live in
      rw (get_inode-cached ino e w x h live, sym key, found) (unref_at-Sets x.key found enough)

  -- Unref of more references than there are ends the process, by the CHECK before the subtraction.
  pub unref-aborted : x.refcnt < n → unref ino n e w ≡ aborted
  unfolding unref unref_at Effect.abort gets lift Fallible.◌>>=◌ Effect.◌>>=◌ Effect.pure
      Fallible.continue
  unref-aborted excess =
      let (h, key, found) = entry_at-Valid ino w.next_address w.inodes x cached.1 live in
      let refused : leb n x.refcnt ≡ false = ground arith in
      rw (get_inode-cached ino e w x h live, sym key, found, refused)
