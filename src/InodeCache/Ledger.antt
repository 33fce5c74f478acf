-- ===== src/InodeCache/Ledger.antt =====
-- What the cache is for its clients, as an abstract machine: a ledger of references by key, on
-- which Insert, Ref and Unref add and subtract.
pub mod Positive
pub mod Refines
use pagealignfs.Prelude.{ℕ, List, [], ◌∷◌, Option, none, some, ◌+◌, ◌-◌, ◌<◌, ◌≤◌, if◌then◌else◌}
use pagealignfs.World.{World, Inode, Entry, Key}
use pagealignfs.Effect
use pagealignfs.Effect.{M, gets, fault}
use pagealignfs.Effect.Fallible.{E, pure, lift, ◌>>=◌, ◌>>◌}
use pagealignfs.InodeCache.{eqb_key, key_of, find, u64, insert, ref, unref}

abbrev pub Ledger : Type 0
Ledger = Key → ℕ

pub data Action : Type 0 where
  inserted : Inode → Action
  referenced : Key → (ntimes : ℕ) → Action
  released : Key → (ntimes : ℕ) → Action

-- The specification.
abbrev pub book : Action → Ledger → Ledger
book (Action.inserted i) c j = if eqb_key (key_of i) j then c j + 1 else c j
book (Action.referenced k n) c j = if eqb_key k j then c j + n else c j
book (Action.released k n) c j = if eqb_key k j then c j - n else c j

abbrev pub book_all : List Action → Ledger → Ledger
book_all [] c = c
book_all (a ∷ actions) c = book_all actions (book a c)

-- A client refers to an inode that it has references to, gives back no more than it has, and the
-- counts stay in 64 bits.
abbrev pub IsAllowed : Action → Ledger → Type 0
IsAllowed (Action.inserted i) c = c (key_of i) + 1 < u64
IsAllowed (Action.referenced k n) c = (0 < c k) × (c k + n < u64)
IsAllowed (Action.released k n) c = (0 < c k) × (n ≤ c k)

abbrev pub AreAllowed : List Action → Ledger → Type 0
AreAllowed [] c = Unit {0}
AreAllowed (a ∷ actions) c = IsAllowed a c × AreAllowed actions (book a c)

-- The implementation: a client has the number of an inode, which is its address.
unfoldable pub number_of : Option Entry → M ℕ
number_of none = fault
number_of (some x) = Effect.pure x.address

unfoldable pub known : Key → M ℕ
unfolding number_of find
known k = Effect.◌>>=◌ (gets (λ w. find k w.inodes)) number_of

unfoldable pub perform : Action → E (Unit {0})
unfolding insert ref unref known
perform (Action.inserted i) = do _ ← lift (insert i); pure tt
perform (Action.referenced k n) = do ino ← lift (known k); ref ino n
perform (Action.released k n) = do ino ← lift (known k); unref ino n

unfoldable pub perform_all : List Action → E (Unit {0})
unfolding perform
perform_all [] = pure tt
perform_all (a ∷ actions) = do perform a; perform_all actions
