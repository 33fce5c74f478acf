-- ===== src/InodeCache.antt =====
-- class InodeCache of pafs/inode.h and pafs/inode.cc: reference counts in 64 bits, on the rows of a
-- hash map by device and inode number, which is a list here.
pub mod Counts
pub mod References
pub mod Live
pub mod Rows
pub mod Erased
pub mod Reach
pub mod Ledger
pub mod Generation
use pagealignfs.Prelude.{
  ℕ, Bool, List, [], ◌∷◌, Option, none, some, ◌==◌, ◌&&◌, leb, ◌+◌, ◌-◌, ◌%◌, ◌^◌, if◌then◌else◌,
}
use pagealignfs.Prelude.Bytes.{text}
use pagealignfs.System.Types.{StatusCode}
use pagealignfs.World.{World, Inode, Entry, Key}
use pagealignfs.Status.{failure}
use pagealignfs.Effect
use pagealignfs.Effect.{M, gets, modify, abort}
use pagealignfs.Effect.Fallible.{E, pure, fail, lift, finally, log_if_error, ◌>>=◌, ◌>>◌}
use pagealignfs.Inode
use pagealignfs.Inode.{get_inode}

abbrev pub eqb_key : Key → Key → Bool
eqb_key a b = a.dev == b.dev && a.ino == b.ino

abbrev pub key_of : Inode → Key
key_of i = record { dev = i.src_dev_num; ino = i.num }

-- flat_hash_map::find
unfoldable pub find : Key → List Entry → Option Entry
find k [] = none
find k (x ∷ xs) = if eqb_key x.key k then some x else find k xs

-- a write through the iterator
unfoldable pub set_refcnt : Key → ℕ → List Entry → List Entry
set_refcnt k n [] = []
set_refcnt k n (x ∷ xs) =
    if eqb_key x.key k then record x { refcnt = n } ∷ xs else x ∷ set_refcnt k n xs

-- flat_hash_map::erase
unfoldable pub erase : Key → List Entry → List Entry
erase k [] = []
erase k (x ∷ xs) = if eqb_key x.key k then xs else x ∷ erase k xs

abbrev pub u64 : ℕ
u64 = 2 ^ 64

unfoldable pub set_count : Key → ℕ → M (Unit {0})
unfolding set_refcnt
set_count k n = modify λ w. record w { inodes = set_refcnt k n w.inodes }

-- A new row moves the inode in; for a row that is there, the inode is destroyed with the parameter.
unfoldable pub insert_at : Inode → Option Entry → M ℕ
unfolding set_count Inode.destroy Effect.◌>>=◌ Effect.pure
insert_at i none = Effect.◌>>=◌ (gets (λ w. w.next_address)) λ p.
    Effect.◌>>◌
      (modify λ w. record w {
        inodes = (record { key = key_of i; refcnt = 1; inode = i; address = p }) ∷ w.inodes;
        next_address = p + 1;
      })
      (Effect.pure p)
insert_at i (some x) =
    Effect.◌>>◌ (set_count (key_of i) ((x.refcnt + 1) % u64))
      (Effect.◌>>◌ (Inode.destroy i) (Effect.pure x.address))

-- Insert: what comes back is the address that the shared_ptr holds.
unfoldable pub insert : Inode → M ℕ
unfolding insert_at find
insert i = Effect.◌>>=◌ (gets (λ w. find (key_of i) w.inodes)) (insert_at i)

unfoldable pub ref_at : Key → ℕ → Option Entry → E (Unit {0})
unfolding set_count
ref_at k ntimes none = fail (failure StatusCode.k_internal (text "Was asked to ref inode"))
ref_at k ntimes (some x) = lift (set_count k ((x.refcnt + ntimes) % u64))

-- Ref
unfoldable pub ref : ℕ → ℕ → E (Unit {0})
unfolding ref_at find get_inode
ref ino ntimes = do
  i ← lift (get_inode ino)
  found ← lift (gets (λ w. find (key_of i) w.inodes))
  ref_at (key_of i) ntimes found

-- the row goes, and the inode in it is destroyed
unfoldable pub erase_row : Key → Entry → M (Unit {0})
unfolding erase Inode.destroy
erase_row k x =
    Effect.◌>>◌ (modify λ w. record w { inodes = erase k w.inodes }) (Inode.destroy x.inode)

unfoldable pub unref_at : Key → ℕ → Option Entry → E (Unit {0})
unfolding erase_row set_count
unref_at k ntimes none = fail (failure StatusCode.k_internal (text "Was asked to unref inode"))
unref_at k ntimes (some x) =
    if leb ntimes x.refcnt
    then (do
      lift (set_count k (x.refcnt - ntimes))
      if x.refcnt - ntimes == 0 then lift (erase_row k x) else pure tt)
    else lift abort

-- Unref; CHECK_GE(refcnt, ntimes) comes before the subtraction.
unfoldable pub unref : ℕ → ℕ → E (Unit {0})
unfolding unref_at find get_inode
unref ino ntimes = do
  i ← lift (get_inode ino)
  found ← lift (gets (λ w. find (key_of i) w.inodes))
  unref_at (key_of i) ntimes found

-- The scope of a shared_ptr that Insert returned: its deleter gives the reference back.
unfoldable pub with_shared : {A : Type 0} → ℕ → E A → E A
unfolding unref
with_shared ino body = finally body (log_if_error (unref ino 1))
