-- ===== src/InodeCache/Ledger/Refines.antt =====
-- The cache of pafs/inode.cc against the ledger.
use pagealignfs.Prelude.{
  ℕ, some, List, [], ◌∷◌, ◌≡◌, refl, ◌∙◌, ◌+◌, ◌<◌, ◌≤◌, arith, Option-cases, inl, inr,
}
use pagealignfs.System.{Env}
use pagealignfs.World.{World, Inode, Entry, Key}
use pagealignfs.Status.{ok}
use pagealignfs.Effect
use pagealignfs.Effect.{done, gets}
use pagealignfs.Effect.Fallible
use pagealignfs.Effect.Fallible.{lift}
use pagealignfs.Effect.Returns.{Returns, returns, Returns-bind, Returns-both, Returns-mono}
use pagealignfs.Inode.{entry_at}
use pagealignfs.InodeCache.{key_of, find, u64, insert}
use pagealignfs.InodeCache.Counts.{count_of, IsCache, find-eqb_key}
use pagealignfs.InodeCache.References.{insert-Sets, ref-Sets, unref-Sets}
use pagealignfs.InodeCache.Live.{find-Live}
use pagealignfs.InodeCache.Ledger.{
  Ledger, Action, book, book_all, IsAllowed, AreAllowed, number_of, known, perform, perform_all,
}
use pagealignfs.InodeCache.Ledger.Positive.{Positive, insert-Positive, ref-Positive, unref-Positive}

-- The cache is well-formed, has no idle row, and counts what the ledger says.
abbrev pub Refines : Ledger → World → Type 0
Refines c w = IsCache w × Positive w.inodes × ((j : Key) → count_of j w.inodes ≡ c j)

-- A key that is counted leads to its row.
known-row :
    (k : Key) (e : Env) (w : World)
    → IsCache w
    → 0 < count_of k w.inodes
    → (x : Entry) × (known k e w ≡ done x.address w)
      × (entry_at x.address w.inodes ≡ some x)
      × (x.key ≡ k)
      × (find k w.inodes ≡ some x)
unfolding known number_of gets Effect.◌>>=◌ Effect.pure
known-row k e w cached counted = elim (Option-cases (find k w.inodes)) [
  | inl absent ↦ ground (arith, absent)
  | inr (x, found) ↦
      let (h, live, key) = find-Live k w.next_address w.inodes x cached.1 found in
      (x, rw found refl, live, key, found)
]

module _ (c : Ledger) (e : Env) (w : World) (cached : IsCache w) (positive : Positive w.inodes)
    (counts : (j : Key) → count_of j w.inodes ≡ c j) where
  insert-Refines :
      (i : Inode)
      → c (key_of i) + 1 < u64
      → Returns (λ _ w'. Refines (book (Action.inserted i) c) w') (insert i e w)
  insert-Refines i room =
      let k = key_of i in
      let fits : count_of k w.inodes + 1 < u64 = rw (counts k) room in
      Returns-both (insert-Sets i e w cached) (insert-Positive i e w fits positive)
        λ _ w' (cached', sets) positive'.
          (cached', positive', λ j. ground (arith, sets j, counts j, find-eqb_key k j w.inodes))

  ref-Refines :
      (k : Key) (n : ℕ)
      → 0 < c k
      → c k + n < u64
      → Returns
          (λ r w'. (r ≡ ok tt) × Refines (book (Action.referenced k n) c) w')
          (perform (Action.referenced k n) e w)
  unfolding perform lift Fallible.◌>>=◌ Effect.◌>>=◌ Effect.pure Fallible.continue
  ref-Refines k n held room =
      let counted : 0 < count_of k w.inodes = rw (counts k) held in
      let (x, at, live, key, found) = known-row k e w cached counted in
      let same : x.refcnt ≡ c k = ground (arith, counts k, found) in
      let one_row = find-eqb_key k in
      rw at (
        Returns-both (ref-Sets x.address n e w x cached live)
          (ref-Positive x.address n e w x cached live positive (omega (arith, same, held))
            (omega (arith, same, room)))
          λ r w' (fine, (cached', sets)) positive'. (
            fine,
            (
              cached',
              positive',
              λ j. ground (arith, sets j, counts j, find-eqb_key k j w.inodes, key),
            ),
          ))

  unref-Refines :
      (k : Key) (n : ℕ)
      → 0 < c k
      → n ≤ c k
      → Returns
          (λ r w'. (r ≡ ok tt) × Refines (book (Action.released k n) c) w')
          (perform (Action.released k n) e w)
  unfolding perform lift Fallible.◌>>=◌ Effect.◌>>=◌ Effect.pure Fallible.continue
  unref-Refines k n held enough =
      let counted : 0 < count_of k w.inodes = rw (counts k) held in
      let (x, at, live, key, found) = known-row k e w cached counted in
      let same : x.refcnt ≡ c k = ground (arith, counts k, found) in
      let allowed : n ≤ x.refcnt = omega (arith, same, enough) in
      rw at (
        Returns-both (unref-Sets x.address n e w x cached live allowed)
          (unref-Positive x.address n e w x cached live positive allowed)
          λ r w' (fine, (cached', sets)) positive'. (
            fine,
            (
              cached',
              positive',
              λ j. ground (arith, sets j, counts j, find-eqb_key k j w.inodes, key),
            ),
          ))

perform-Refines :
    (a : Action) (c : Ledger) (e : Env) (w : World)
    → Refines c w
    → IsAllowed a c
    → Returns (λ r w'. (r ≡ ok tt) × Refines (book a c) w') (perform a e w)
unfolding perform lift Fallible.◌>>=◌ Effect.◌>>=◌ Effect.pure Fallible.continue Fallible.pure
perform-Refines (Action.inserted i) c e w (cached, positive, counts) room =
    Returns-bind {P = λ r w'. (p : ℕ) × (r ≡ ok p) × Refines (book (Action.inserted i) c) w'}
      (Returns-bind (insert-Refines c e w cached positive counts i room)
        λ p w' l. returns (p, refl, l))
      λ r w' (p, same, l). rw same (returns (refl, l))
perform-Refines (Action.referenced k n) c e w (cached, positive, counts) (held, room) =
    ref-Refines c e w cached positive counts k n held room
perform-Refines (Action.released k n) c e w (cached, positive, counts) (held, enough) =
    unref-Refines c e w cached positive counts k n held enough

-- The cache implements the ledger: actions that are allowed all return OK, on a cache that counts
-- what a ledger says, and then the cache counts what the ledger says after the same actions; it is
-- well-formed again, and no row of it is idle.
pub perform_all-Refines :
    (actions : List Action) (c : Ledger) (e : Env) (w : World)
    → Refines c w
    → AreAllowed actions c
    → Returns (λ r w'. (r ≡ ok tt) × Refines (book_all actions c) w') (perform_all actions e w)
unfolding perform_all Fallible.◌>>=◌ Effect.◌>>=◌ Effect.pure Fallible.continue Fallible.pure
perform_all-Refines [] c e w l allowed = returns (refl, l)
perform_all-Refines (a ∷ actions) c e w l (now, later) =
    Returns-bind (perform-Refines a c e w l now)
      λ r w' (fine, l'). rw fine (perform_all-Refines actions (book a c) e w' l' later)

-- A cache without idle rows that counts nothing is empty.
uncounted-empty : (xs : List Entry) → Positive xs → ((j : Key) → count_of j xs ≡ 0) → xs ≡ []
unfolding find
uncounted-empty [] positive none_left = refl
uncounted-empty (x ∷ xs) positive none_left = ground (arith, none_left x.key)

-- No inode stays behind: on a cache that is empty at first, actions that are allowed and give back
-- each reference that they take all return OK and leave the cache empty.
pub perform_all-empty :
    (actions : List Action) (e : Env) (w : World)
    → 1 < w.next_address
    → w.inodes ≡ []
    → AreAllowed actions (λ _. 0)
    → ((j : Key) → book_all actions (λ _. 0) j ≡ 0)
    → Returns (λ r w'. (r ≡ ok tt) × (w'.inodes ≡ [])) (perform_all actions e w)
unfolding find
perform_all-empty actions e w h empty allowed given_back =
    let start : Refines (λ _. 0) w = rw empty ((h, tt), tt, λ j. refl) in
    Returns-mono (perform_all-Refines actions (λ _. 0) e w start allowed)
      λ r w' (fine, (cached, positive, counts)).
        (fine, uncounted-empty w'.inodes positive (λ j. counts j ∙ given_back j))
