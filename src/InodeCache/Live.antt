-- ===== src/InodeCache/Live.antt =====
-- An inode that stays in the cache while references to it are held: it is found at its address,
-- with its key and a known count.
use pagealignfs.Prelude.{
  ℕ, ◌+◌, ◌-◌, ◌%◌, ◌<◌, ◌≡◌, refl, sym, ap, ◌∙◌, arith, Option, none, some, List, [], ◌∷◌, true,
  false, ◌==◌, leb, if◌then◌else◌,
}
use pagealignfs.System.{Env}
use pagealignfs.World.{World, Inode, Entry, Key}
use pagealignfs.Status.{ok}
use pagealignfs.Effect
use pagealignfs.Effect.{M, done, modify, gets, call}
use pagealignfs.Effect.Fallible
use pagealignfs.Effect.Fallible.{lift}
use pagealignfs.Effect.Ensures.{Ensures}
use pagealignfs.Effect.Returns.{Returns, returns, Returns-mono, Returns-bind}
use pagealignfs.Inode.{entry_at, get_inode, set_inode}
use pagealignfs.InodeCache.{
  eqb_key, key_of, find, set_refcnt, u64, ref, unref, ref_at, unref_at, set_count, insert,
  insert_at,
}
use pagealignfs.InodeCache.Counts.{
  refcnt_of, count_of, Valid, IsCache, entry_at-Valid, find-Valid, find-eqb_key,
  count_of-set_refcnt, Valid-set_refcnt,
}
use pagealignfs.InodeCache.References.{get_inode-cached, unref-Sets, Sets-new}
use pagealignfs.Inode.Quiet.{destroy_inode-Quiet}
use pagealignfs.InodeCache.Rows.{entry_at-counted, find-set_at, entry_at-set_at, Valid-set_at}

-- The cache is well-formed, `k` has the count `n`, and any other key the one that `base` gives.
abbrev pub Counted : (Key → ℕ) → Key → ℕ → World → Type 0
Counted base k n w =
    IsCache w × ((j : Key) → count_of j w.inodes ≡ (if eqb_key k j then n else base j))

-- The inode at `p` has the key `k`, which is counted `n` times.
abbrev pub Live : (Key → ℕ) → ℕ → Key → ℕ → World → Type 0
Live base p k n w =
    Counted base k n w
    × ((x : Entry) × (entry_at p w.inodes ≡ some x) × (x.key ≡ k) × (x.refcnt ≡ n))

module _ (base : Key → ℕ) (p : ℕ) (k : Key) where
  Live-set_refcnt :
      (m n : ℕ) (w : World)
      → n < u64
      → Live base p k m w
      → Live base p k n (record w { inodes = set_refcnt k n w.inodes })
  Live-set_refcnt m n w bound ((cached, counts), (x, live, key, held)) =
      let (_, _, found) = entry_at-Valid p w.next_address w.inodes x cached.1 live in
      let at_k : find k w.inodes ≡ some x = rw (sym key) found in
      let written = entry_at-counted p n w.next_address w.inodes x cached.1 live in
      (
        (
          (cached.0, Valid-set_refcnt k n w.next_address w.inodes bound cached.1),
          λ j. ground (arith, count_of-set_refcnt k j n w.inodes x, counts j),
        ),
        (record x { refcnt = n }, rw (sym key) written, key, refl),
      )

  Live-quiet :
      (n : ℕ) (w1 w2 : World)
      → Live base p k n w1
      → w2 ≡ record w1 { trace = w2.trace }
      → Live base p k n w2
  Live-quiet n w1 w2 l quiet =
      let rows = ap {A = World} (λ v. v.inodes) quiet in
      let next = ap {A = World} (λ v. v.next_address) quiet in rw (rows, next) l

  pub set_inode-Live :
      (n : ℕ) (i : Inode)
      → key_of i ≡ k
      → 1 < p
      → Ensures (Live base p k n) (λ _. Live base p k n) (set_inode p i)
  unfolding set_inode modify
  set_inode-Live n i same h = record {
    at = λ e w ((cached, counts), (x, live, key, held)).
        let other : (p == 1) ≡ false = ground arith in
        rw other (
          returns (
            (
              (cached.0, Valid-set_at p w.next_address i w.inodes x cached.1 live (same ∙ sym key)),
              λ j. find-set_at j p i w.inodes ∙ counts j,
            ),
            (record x { inode = i }, entry_at-set_at p i w.inodes x live, key, held),
          ));
  }

  -- The reference leads to the object, and a step may use it.
  pub get_inode-Live :
      (n : ℕ)
      → Ensures
          (Live base p k n)
          (λ i w. (1 < p) × (key_of i ≡ k) × Live base p k n w)
          (get_inode p)
  get_inode-Live n = record {
    at = λ e w l.
        let ((cached, counts), (x, live, key, held)) = l in
        let (h, same, found) = entry_at-Valid p w.next_address w.inodes x cached.1 live in
        rw (get_inode-cached p e w x h live) (returns (h, sym same ∙ key, l));
  }

  pub ref-Live :
      (n : ℕ) (e : Env) (w : World)
      → n + 1 < u64
      → Live base p k n w
      → Returns (λ r w'. (r ≡ ok tt) × Live base p k (n + 1) w') (ref p 1 e w)
  unfolding ref ref_at set_count modify gets lift Fallible.◌>>=◌ Effect.◌>>=◌ Effect.pure
      Fallible.continue
  ref-Live n e w bound l =
      let ((cached, counts), (x, live, key, held)) = l in
      let (h, same, found) = entry_at-Valid p w.next_address w.inodes x cached.1 live in
      let one_more : (x.refcnt + 1) % u64 ≡ n + 1 = omega (arith, held) in
      rw (get_inode-cached p e w x h live, sym same, found, one_more, key)
        (returns (refl, Live-set_refcnt n (n + 1) w bound l))

  -- The last reference but `n` is given back, and the inode stays.
  pub unref-Live :
      (n : ℕ) (e : Env) (w : World)
      → 0 < n
      → Live base p k (n + 1) w
      → Returns (λ r w'. (r ≡ ok tt) × Live base p k n w') (unref p 1 e w)
  unfolding unref unref_at set_count modify gets lift Fallible.◌>>=◌ Effect.◌>>=◌ Effect.pure
      Fallible.continue Fallible.pure
  unref-Live n e w some_left l =
      let ((cached, counts), (x, live, key, held)) = l in
      let (h, same, found) = entry_at-Valid p w.next_address w.inodes x cached.1 live in
      let bound = find-Valid x.key w.next_address w.inodes x cached.1 found in
      let allowed : leb 1 x.refcnt ≡ true = ground arith in
      let left : x.refcnt - 1 ≡ n = omega (arith, held) in
      let kept : (n == 0) ≡ false = ground arith in
      rw (get_inode-cached p e w x h live, sym same, found, allowed, left, kept, key)
        (returns (refl, Live-set_refcnt (n + 1) n w (omega (arith, held, bound)) l))

  -- The last reference of all may go: only the counts are known then.
  pub unref-Counted :
      (n : ℕ) (e : Env) (w : World)
      → Live base p k (n + 1) w
      → Returns (λ _ w'. Counted base k n w') (unref p 1 e w)
  unref-Counted n e w l =
      let ((cached, counts), (x, live, key, held)) = l in
      let left : x.refcnt - 1 ≡ n = omega (arith, held) in
      Returns-mono (unref-Sets p 1 e w x cached live (omega (arith, held)))
        λ r w' (_, sets). (sets.0, λ j. ground (arith, sets.1 j, counts j))

pub eqb_key-≡ : (a b : Key) → eqb_key a b ≡ true → a ≡ b
eqb_key-≡ a b h = ground arith

pub find-Live :
    (k : Key) (next : ℕ) (xs : List Entry) (x : Entry)
    → Valid next xs
    → find k xs ≡ some x
    → (1 < x.address) × (entry_at x.address xs ≡ some x) × (x.key ≡ k)
unfolding entry_at find
find-Live k next [] x v h = ground arith
find-Live k next (y ∷ xs) x v h = ground (arith, find-Live k next xs x, eqb_key-≡ y.key k)

insert_at-Live :
    (i : Inode) (found : Option Entry) (e : Env) (w : World)
    → IsCache w
    → refcnt_of found + 1 < u64
    → find (key_of i) w.inodes ≡ found
    → Returns
        (λ p w'. (1 < p) × Live (λ j. count_of j w.inodes) p (key_of i) (refcnt_of found + 1) w')
        (insert_at i found e w)
unfolding insert_at set_count modify gets Effect.◌>>=◌ Effect.pure entry_at
insert_at-Live i none e w cached bound absent =
    let row : Entry = record { key = key_of i; refcnt = 1; inode = i; address = w.next_address } in
    returns (cached.0, (Sets-new i w cached absent, (row, ground arith, refl, refl)))
insert_at-Live i (some x) e w cached bound found =
    let k = key_of i in
    let (h, live, key) = find-Live k w.next_address w.inodes x cached.1 found in
    let before : Live (λ j. count_of j w.inodes) x.address k x.refcnt w =
      ((cached, λ j. ground (arith, find-eqb_key k j w.inodes)), (x, live, key, refl)) in
    let w1 = record w { inodes = set_refcnt k ((x.refcnt + 1) % u64) w.inodes } in
    let one_more : (x.refcnt + 1) % u64 ≡ x.refcnt + 1 = omega (arith, bound) in
    let after : Live (λ j. count_of j w.inodes) x.address k (x.refcnt + 1) w1 = rw one_more (
      Live-set_refcnt (λ j. count_of j w.inodes) x.address k _ _ w (omega (arith, bound)) before) in
    Returns-bind ((destroy_inode-Quiet i).at e w1)
      λ _ w' quiet. returns (h, Live-quiet _ _ _ _ w1 w' after quiet)

-- Insert returns the address of an inode of the key, with one reference more.
pub insert-Live :
    (i : Inode) (e : Env) (w : World)
    → IsCache w
    → count_of (key_of i) w.inodes + 1 < u64
    → Returns
        (λ p w'.
          (1 < p)
          × Live (λ j. count_of j w.inodes) p (key_of i) (count_of (key_of i) w.inodes + 1) w')
        (insert i e w)
unfolding insert gets Effect.◌>>=◌
insert-Live i e w cached bound = insert_at-Live i (find (key_of i) w.inodes) e w cached bound refl
