-- ===== src/InodeCache/Reach.antt =====
-- The numbers that lead to an inode, and what Insert does to them.
use pagealignfs.Prelude.{
  ℕ, ◌≡◌, ◌⊎◌, inl, inr, arith, refl, Bool-cases, Option-cases, Option, none, some, List, [], ◌∷◌,
  ◌==◌, ◌+◌, ◌%◌,
}
use pagealignfs.System.{Env}
use pagealignfs.World.{World, Inode, Entry, Key}
use pagealignfs.Effect
use pagealignfs.Effect.{gets, modify}
use pagealignfs.Effect.Returns.{Returns, returns, Returns-bind}
use pagealignfs.Effect.Ensures.{Ensures}
use pagealignfs.Inode
use pagealignfs.Inode.{entry_at, get_inode}
use pagealignfs.Inode.Quiet.{destroy_inode-Quiet}
use pagealignfs.InodeCache.{key_of, find, set_refcnt, set_count, u64, insert, insert_at}

-- A number that leads to an inode: that of the root, or the address of a cached one.
abbrev pub IsLive : ℕ → World → Type 0
IsLive ino w = (ino ≡ 1) ⊎ ((x : Entry) × (entry_at ino w.inodes ≡ some x))

pub get_inode-IsLive :
    (ino : ℕ) {P : World → Type 0}
    → ((w : World) → P w → IsLive ino w)
    → Ensures P (λ _. P) (get_inode ino)
unfolding get_inode Inode.or_fault Effect.gets Effect.◌>>=◌ Effect.pure
get_inode-IsLive ino alive = record {
  at = λ e w p. elim (alive w p) [
    | inl root ↦ rw root (returns p)
    | inr (x, found) ↦ elim (Bool-cases (ino == 1)) [
      | inl root ↦ rw root (returns p)
      | inr other ↦ rw (other, found) (returns p)
    ]
  ];
}

entry_at-kept :
    (q : ℕ) (k : Key) (n : ℕ) (xs : List Entry)
    → entry_at q (set_refcnt k n xs) ≡ none
    → entry_at q xs ≡ none
unfolding entry_at set_refcnt
entry_at-kept q k n [] h = refl
entry_at-kept q k n (y ∷ xs) h = ground (arith, entry_at-kept q k n xs)

-- A row stays where it is when a count changes.
IsLive-set_refcnt :
    (q : ℕ) (k : Key) (n : ℕ) (w : World)
    → IsLive q w
    → IsLive q (record w { inodes = set_refcnt k n w.inodes })
IsLive-set_refcnt q k n w (inl root) = inl root
IsLive-set_refcnt q k n w (inr (x, found)) =
    elim (Option-cases (entry_at q (set_refcnt k n w.inodes))) [
      | inl gone ↦ ground (arith, entry_at-kept q k n w.inodes gone)
      | inr there ↦ inr there
    ]

insert_at-IsLive :
    (q : ℕ) (i : Inode) (found : Option Entry) (e : Env) (w : World)
    → IsLive q w
    → Returns (λ _ w'. IsLive q w') (insert_at i found e w)
unfolding insert_at set_count modify gets Effect.◌>>=◌ Effect.pure entry_at
insert_at-IsLive q i none e w (inl root) = returns (inl root)
insert_at-IsLive q i none e w (inr (x, there)) =
    let row : Entry = record { key = key_of i; refcnt = 1; inode = i; address = w.next_address } in
    elim (Bool-cases (w.next_address == q)) [
      | inl same ↦ returns (inr (row, rw same refl))
      | inr other ↦ returns (inr (x, rw other there))
    ]
insert_at-IsLive q i (some x) e w live =
    let k = key_of i in
    let n = (x.refcnt + 1) % u64 in
    let w1 = record w { inodes = set_refcnt k n w.inodes } in
    Returns-bind ((destroy_inode-Quiet i).at e w1)
      λ _ w' quiet. returns (rw quiet (IsLive-set_refcnt q k n w live))

-- What leads to an inode still does after Insert.
pub insert-IsLive :
    (q : ℕ) (i : Inode) (e : Env) (w : World)
    → IsLive q w
    → Returns (λ _ w'. IsLive q w') (insert i e w)
unfolding insert gets Effect.◌>>=◌
insert-IsLive q i e w live = insert_at-IsLive q i (find (key_of i) w.inodes) e w live
