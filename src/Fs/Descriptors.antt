-- ===== src/Fs/Descriptors.antt =====
-- The account of the open descriptors: what the trace has seen opened and closed, and what the rows
-- of the cache own.
pub mod Owned
pub mod Cache
pub mod Entries
pub mod Lookups
use pagealignfs.Prelude.{
  ℕ, Bool, true, false, not, ◌≡◌, refl, arith, Option, some, none, List, [], ◌∷◌, ◌+◌, length,
  count_if,
}
use pagealignfs.Prelude.Int.{ℤ, minus_one, eqb_ℤ}
use pagealignfs.System.{Event}
use pagealignfs.System.Calls.{Call}
use pagealignfs.World.{World, Inode, Entry, Key}
use pagealignfs.Inode.{entry_at, set_at}
use pagealignfs.InodeCache.{find, set_refcnt, erase}

abbrev pub is_open : Call → ℤ → Bool
is_open (Call.open_file path flags mode) rc = not (eqb_ℤ rc minus_one)
is_open (Call.openat fd path flags mode) rc = not (eqb_ℤ rc minus_one)
is_open (Call.dup fd) rc = not (eqb_ℤ rc minus_one)
is_open _ rc = false

abbrev pub is_close : Call → Bool
is_close (Call.close fd) = true
is_close _ = false

abbrev pub opens : List Event → ℕ
opens = count_if (λ ev. is_open ev.call ev.answer.rc)

abbrev pub closes : List Event → ℕ
closes = count_if (λ ev. is_close ev.call)

-- The inode has a descriptor.
abbrev pub HasFd : Inode → Type 0
HasFd i = eqb_ℤ i.fd.fd minus_one ≡ false

abbrev pub HaveFds : List Entry → Type 0
HaveFds [] = Unit {0}
HaveFds (x ∷ xs) = HasFd x.inode × HaveFds xs

pub find-HasFd :
    (k : Key) (xs : List Entry) (x : Entry) → HaveFds xs → find k xs ≡ some x → HasFd x.inode
unfolding find
find-HasFd k [] x v h = ground arith
find-HasFd k (y ∷ xs) x v h = ground (arith, find-HasFd k xs x)

pub entry_at-HasFd :
    (p : ℕ) (xs : List Entry) (x : Entry) → HaveFds xs → entry_at p xs ≡ some x → HasFd x.inode
unfolding entry_at
entry_at-HasFd p [] x v h = ground arith
entry_at-HasFd p (y ∷ xs) x v h = ground (arith, entry_at-HasFd p xs x)

pub HaveFds-set_refcnt :
    (k : Key) (n : ℕ) (xs : List Entry) → HaveFds xs → HaveFds (set_refcnt k n xs)
unfolding set_refcnt
HaveFds-set_refcnt k n [] v = tt
HaveFds-set_refcnt k n (x ∷ xs) v = ground (arith, HaveFds-set_refcnt k n xs)

pub length-set_refcnt : (k : Key) (n : ℕ) (xs : List Entry) → length (set_refcnt k n xs) ≡ length xs
unfolding set_refcnt
length-set_refcnt k n [] = refl
length-set_refcnt k n (x ∷ xs) = ground (arith, length-set_refcnt k n xs)

pub HaveFds-erase : (k : Key) (xs : List Entry) → HaveFds xs → HaveFds (erase k xs)
unfolding erase
HaveFds-erase k [] v = tt
HaveFds-erase k (x ∷ xs) v = ground (arith, HaveFds-erase k xs)

-- The row goes after its count was written.
pub length-erase :
    (k : Key) (n : ℕ) (xs : List Entry) (x : Entry)
    → find k xs ≡ some x
    → length (erase k (set_refcnt k n xs)) + 1 ≡ length xs
unfolding find erase set_refcnt
length-erase k n [] x h = ground arith
length-erase k n (y ∷ xs) x h = ground (arith, length-erase k n xs x)

pub HaveFds-set_at :
    (p : ℕ) (i : Inode) (xs : List Entry) → HasFd i → HaveFds xs → HaveFds (set_at p i xs)
unfolding set_at
HaveFds-set_at p i [] f v = tt
HaveFds-set_at p i (x ∷ xs) f v = ground (arith, HaveFds-set_at p i xs)

pub length-set_at : (p : ℕ) (i : Inode) (xs : List Entry) → length (set_at p i xs) ≡ length xs
unfolding set_at
length-set_at p i [] = refl
length-set_at p i (x ∷ xs) = ground (arith, length-set_at p i xs)

-- With `d` descriptors in hand that no inode owns, all that was opened is accounted for; `a` and `c`
-- say where the account began.
abbrev pub Accounted : (a c d : ℕ) → World → Type 0
Accounted a c d w =
    HaveFds w.inodes × (closes w.trace + length w.inodes + d + a ≡ opens w.trace + c)
