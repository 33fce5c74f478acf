-- ===== src/InodeCache/Counts.antt =====
-- The cache as a function from keys to reference counts, and its well-formedness: what the updates
-- of the rows do to both.
use pagealignfs.Prelude.{
  ℕ, true, Option, none, some, List, [], ◌∷◌, ◌≡◌, refl, ◌<◌, ◌≤◌, arith, if◌then◌else◌,
}
use pagealignfs.World.{World, Entry, Key}
use pagealignfs.Inode.{entry_at}
use pagealignfs.InodeCache.{eqb_key, key_of, find, set_refcnt, erase, u64}

abbrev pub refcnt_of : Option Entry → ℕ
refcnt_of none = 0
refcnt_of (some x) = x.refcnt

-- The reference count of a key, 0 where the cache has no row for it.
abbrev pub count_of : Key → List Entry → ℕ
count_of k xs = refcnt_of (find k xs)

-- Each row has the key of its inode, a count in 64 bits and an address that was given out; no key
-- and no address stands twice.
abbrev pub Valid : ℕ → List Entry → Type 0
Valid next [] = Unit {0}
Valid next (x ∷ xs) =
    (x.key ≡ key_of x.inode)
    × (x.refcnt < u64)
    × (1 < x.address)
    × (x.address < next)
    × (find x.key xs ≡ none)
    × (entry_at x.address xs ≡ none)
    × Valid next xs

pub find-eqb_key : (j k : Key) (xs : List Entry) → eqb_key j k ≡ true → find j xs ≡ find k xs
unfolding find
find-eqb_key j k [] h = refl
find-eqb_key j k (x ∷ xs) h = ground (arith, find-eqb_key j k xs)

find-set_refcnt :
    (k j : Key) (n : ℕ) (xs : List Entry) → find j xs ≡ none → find j (set_refcnt k n xs) ≡ none
unfolding find set_refcnt
find-set_refcnt k j n [] h = refl
find-set_refcnt k j n (x ∷ xs) h = ground (arith, find-set_refcnt k j n xs)

entry_at-set_refcnt :
    (k : Key) (p n : ℕ) (xs : List Entry)
    → entry_at p xs ≡ none
    → entry_at p (set_refcnt k n xs) ≡ none
unfolding entry_at set_refcnt
entry_at-set_refcnt k p n [] h = refl
entry_at-set_refcnt k p n (x ∷ xs) h = ground (arith, entry_at-set_refcnt k p n xs)

pub count_of-set_refcnt :
    (k j : Key) (n : ℕ) (xs : List Entry) (x : Entry)
    → find k xs ≡ some x
    → count_of j (set_refcnt k n xs) ≡ (if eqb_key k j then n else count_of j xs)
unfolding find set_refcnt
count_of-set_refcnt k j n [] x h = cc
count_of-set_refcnt k j n (y ∷ xs) x h = ground (arith, count_of-set_refcnt k j n xs x)

pub Valid-set_refcnt :
    (k : Key) (n next : ℕ) (xs : List Entry)
    → n < u64
    → Valid next xs
    → Valid next (set_refcnt k n xs)
unfolding set_refcnt
Valid-set_refcnt k n next [] h v = tt
Valid-set_refcnt k n next (x ∷ xs) h v = ground (
  arith,
  Valid-set_refcnt k n next xs h,
  find-set_refcnt k x.key n xs,
  entry_at-set_refcnt k x.address n xs,
)

find-erase : (k j : Key) (xs : List Entry) → find j xs ≡ none → find j (erase k xs) ≡ none
unfolding find erase
find-erase k j [] h = refl
find-erase k j (x ∷ xs) h = ground (arith, find-erase k j xs)

entry_at-erase :
    (k : Key) (p : ℕ) (xs : List Entry) → entry_at p xs ≡ none → entry_at p (erase k xs) ≡ none
unfolding entry_at erase
entry_at-erase k p [] h = refl
entry_at-erase k p (x ∷ xs) h = ground (arith, entry_at-erase k p xs)

pub Valid-erase : (k : Key) (next : ℕ) (xs : List Entry) → Valid next xs → Valid next (erase k xs)
unfolding erase
Valid-erase k next [] v = tt
Valid-erase k next (x ∷ xs) v =
    ground (arith, Valid-erase k next xs, find-erase k x.key xs, entry_at-erase k x.address xs)

pub count_of-erase :
    (k j : Key) (next : ℕ) (xs : List Entry)
    → Valid next xs
    → count_of j (erase k xs) ≡ (if eqb_key k j then 0 else count_of j xs)
unfolding find erase
count_of-erase k j next [] v = ground arith
count_of-erase k j next (x ∷ xs) v =
    ground (arith, count_of-erase k j next xs, find-eqb_key x.key j xs)

-- The cache of a state: no address that was given out is a null pointer or FUSE_ROOT_ID.
abbrev pub IsCache : World → Type 0
IsCache w = (1 < w.next_address) × Valid w.next_address w.inodes

pub entry_at-fresh :
    (p next : ℕ) (xs : List Entry) → next ≤ p → Valid next xs → entry_at p xs ≡ none
unfolding entry_at
entry_at-fresh p next [] h v = refl
entry_at-fresh p next (x ∷ xs) h v = ground (arith, entry_at-fresh p next xs)

pub Valid-mono : (next next' : ℕ) (xs : List Entry) → next ≤ next' → Valid next xs → Valid next' xs
Valid-mono next next' [] h v = tt
Valid-mono next next' (x ∷ xs) h v = ground (arith, Valid-mono next next' xs)

pub find-Valid :
    (k : Key) (next : ℕ) (xs : List Entry) (x : Entry)
    → Valid next xs
    → find k xs ≡ some x
    → x.refcnt < u64
unfolding find
find-Valid k next [] x v h = ground arith
find-Valid k next (y ∷ xs) x v h = ground (arith, find-Valid k next xs x)

-- A row is found under its address and under its key.
pub entry_at-Valid :
    (p next : ℕ) (xs : List Entry) (x : Entry)
    → Valid next xs
    → entry_at p xs ≡ some x
    → (1 < p) × (x.key ≡ key_of x.inode) × (find x.key xs ≡ some x)
unfolding entry_at find
entry_at-Valid p next [] x v h = ground arith
entry_at-Valid p next (y ∷ xs) x v h =
    ground (arith, entry_at-Valid p next xs x, find-eqb_key y.key x.key xs)
