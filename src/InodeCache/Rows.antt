-- ===== src/InodeCache/Rows.antt =====
-- Writes through a key and through an address: what is found at addresses and keys afterwards.
use pagealignfs.Prelude.{ℕ, ◌≡◌, refl, arith, none, some, List, [], ◌∷◌}
use pagealignfs.World.{Inode, Entry, Key}
use pagealignfs.Inode.{entry_at, set_at}
use pagealignfs.InodeCache.{key_of, find, set_refcnt}
use pagealignfs.InodeCache.Counts.{count_of, Valid, entry_at-Valid, find-eqb_key}

-- A write of the count through the key is seen at the address.
pub entry_at-counted :
    (p n next : ℕ) (xs : List Entry) (x : Entry)
    → Valid next xs
    → entry_at p xs ≡ some x
    → entry_at p (set_refcnt x.key n xs) ≡ some (record x { refcnt = n })
unfolding entry_at set_refcnt
entry_at-counted p n next [] x v h = ground arith
entry_at-counted p n next (y ∷ xs) x v h =
    ground (
      arith,
      entry_at-counted p n next xs x,
      entry_at-Valid p next xs x,
      find-eqb_key y.key x.key xs,
    )

pub find-set_at :
    (j : Key) (p : ℕ) (i : Inode) (xs : List Entry) → count_of j (set_at p i xs) ≡ count_of j xs
unfolding find set_at
find-set_at j p i [] = refl
find-set_at j p i (x ∷ xs) = ground (arith, find-set_at j p i xs)

find-set_at_none :
    (j : Key) (p : ℕ) (i : Inode) (xs : List Entry)
    → find j xs ≡ none
    → find j (set_at p i xs) ≡ none
unfolding find set_at
find-set_at_none j p i [] h = refl
find-set_at_none j p i (x ∷ xs) h = ground (arith, find-set_at_none j p i xs)

entry_at-set_at_none :
    (q p : ℕ) (i : Inode) (xs : List Entry)
    → entry_at q xs ≡ none
    → entry_at q (set_at p i xs) ≡ none
unfolding entry_at set_at
entry_at-set_at_none q p i [] h = refl
entry_at-set_at_none q p i (x ∷ xs) h = ground (arith, entry_at-set_at_none q p i xs)

pub entry_at-set_at :
    (p : ℕ) (i : Inode) (xs : List Entry) (x : Entry)
    → entry_at p xs ≡ some x
    → entry_at p (set_at p i xs) ≡ some (record x { inode = i })
unfolding entry_at set_at
entry_at-set_at p i [] x h = ground arith
entry_at-set_at p i (y ∷ xs) x h = ground (arith, entry_at-set_at p i xs x)

-- The object at an address may be replaced by one of the same key.
pub Valid-set_at :
    (p next : ℕ) (i : Inode) (xs : List Entry) (x : Entry)
    → Valid next xs
    → entry_at p xs ≡ some x
    → key_of i ≡ x.key
    → Valid next (set_at p i xs)
unfolding entry_at set_at
Valid-set_at p next i [] x v h k = tt
Valid-set_at p next i (y ∷ xs) x v h k = ground (
  arith,
  Valid-set_at p next i xs x,
  find-set_at_none y.key p i xs,
  entry_at-set_at_none y.address p i xs,
)
