-- ===== src/Tests/Ledgers.antt =====
-- The theorems on the ledger of references at concrete inputs.
use pagealignfs.Prelude.{List, [], ◌∷◌, ◌≡◌, refl, arith, if◌then◌else◌}
use pagealignfs.World.{Key}
use pagealignfs.Status.{ok}
use pagealignfs.Effect.Returns.{Returns}
use pagealignfs.InodeCache.{eqb_key}
use pagealignfs.InodeCache.Ledger.{Ledger, Action, book_all, AreAllowed, perform_all}
use pagealignfs.InodeCache.Ledger.Refines.{Refines, perform_all-Refines, perform_all-empty}
use pagealignfs.Tests.Sample.{sample, mounted, looked_up, looked_up-IsCache, a_row}

-- A lookup that finds a cached inode, and a forget of all references but one.
abbrev again : List Action
again = Action.inserted a_row.inode ∷ Action.released a_row.key 2 ∷ []

abbrev two_each : Ledger
two_each j = if eqb_key a_row.key j then 2 else 0

looked_up-Refines : Refines two_each looked_up
unfolding pagealignfs.InodeCache.find
looked_up-Refines = (looked_up-IsCache, (omega arith, tt), λ j. ground arith)

perform_all-Refines_example :
    Returns
      (λ r w. (r ≡ ok tt) × Refines (book_all again two_each) w)
      (perform_all again sample looked_up)
perform_all-Refines_example =
    perform_all-Refines again two_each sample looked_up looked_up-Refines
      (omega arith, ((omega arith, omega arith), tt))

-- A lookup, a link and two forgets.
abbrev visit : List Action
visit =
    Action.inserted a_row.inode
    ∷ Action.referenced a_row.key 3
    ∷ Action.released a_row.key 1
    ∷ Action.released a_row.key 3
    ∷ []

visit-AreAllowed : AreAllowed visit (λ _. 0)
visit-AreAllowed = (
  omega arith,
  ((omega arith, omega arith), ((omega arith, omega arith), ((omega arith, omega arith), tt))),
)

visit-given_back : (j : Key) → book_all visit (λ _. 0) j ≡ 0
visit-given_back j = ground arith

perform_all-empty_example :
    Returns (λ r w. (r ≡ ok tt) × (w.inodes ≡ [])) (perform_all visit sample mounted)
perform_all-empty_example =
    perform_all-empty visit sample mounted (omega arith) refl visit-AreAllowed visit-given_back
