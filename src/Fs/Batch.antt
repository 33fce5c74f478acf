-- ===== src/Fs/Batch.antt =====
-- ForgetMulti of pafs/page_align_fs.cc against Forget.
use pagealignfs.Prelude.{
  ℕ, Bool-cases, Option-cases, inl, inr, ◌⊎◌, ◌≡◌, refl, ◌==◌, List, [], ◌∷◌, ap,
}
use pagealignfs.System.{Env}
use pagealignfs.System.Types.{ForgetData}
use pagealignfs.World.{World, Inode}
use pagealignfs.Effect
use pagealignfs.Effect.{Run, done, faulted, and_then, gets, fault}
use pagealignfs.Effect.Fallible
use pagealignfs.Effect.Fallible.{E, lift, continue}
use pagealignfs.Status.{StatusOr, ok, err}
use pagealignfs.Inode
use pagealignfs.Inode.{entry_at, get_inode}
use pagealignfs.InodeCache.{unref}
use pagealignfs.Fs.Entries.{forget, forget_multi}

-- Forget of each in turn, up to the first that fails.
abbrev pub forget_each : List ForgetData → E (Unit {0})
forget_each [] = Fallible.pure tt
forget_each (f ∷ forgets) = Fallible.◌>>◌ (forget f.ino f.nlookup) (forget_each forgets)

-- A number leads to an inode, or it dangles; the state stays as it is.
get_inode-cases :
    (ino : ℕ) (e : Env) (w : World)
    → ((i : Inode) × (get_inode ino e w ≡ done i w)) ⊎ (get_inode ino e w ≡ faulted)
unfolding get_inode Inode.or_fault gets fault Effect.◌>>=◌ Effect.pure
get_inode-cases ino e w = elim (Bool-cases (ino == 1)) [
  | inl root ↦ inl (w.root, rw root refl)
  | inr other ↦ elim (Option-cases (entry_at ino w.inodes)) [
    | inl gone ↦ inr (rw (other, gone) refl)
    | inr (x, found) ↦ inl (x.inode, rw (other, found) refl)
  ]
]

-- The inode that Forget looks up for its log is the one that Unref looks up.
forget-unref : (ino n : ℕ) (e : Env) (w : World) → forget ino n e w ≡ unref ino n e w
unfolding forget lift Fallible.◌>>=◌ Effect.◌>>=◌ Effect.pure continue
forget-unref ino n e w = elim (get_inode-cases ino e w) [
  | inl (i, found) ↦
      ap {A = Run Inode}
        (λ r.
          and_then (and_then r (λ j v. done (ok j) v)) (λ s v. continue s (λ _. unref ino n) e v))
        found
  | inr gone ↦ rw gone refl
]

rest-same :
    (r : Run (StatusOr (Unit {0}))) (m m' : E (Unit {0})) (e : Env)
    → ((v : World) → m e v ≡ m' e v)
    → and_then r (λ s v. continue s (λ _. m) e v) ≡ and_then r (λ s v. continue s (λ _. m') e v)
unfolding continue
rest-same (done (ok a) v) m m' e same = same v
rest-same (done (err st) v) m m' e same = refl
rest-same Run.aborted m m' e same = refl
rest-same Run.faulted m m' e same = refl
rest-same Run.diverged m m' e same = refl

-- ForgetMulti is Forget of each of its entries in turn, up to the first that fails: the same
-- answer, the same calls and the same state, in whatever state and environment.
pub forget_multi-each :
    (forgets : List ForgetData) (e : Env) (w : World)
    → forget_multi forgets e w ≡ forget_each forgets e w
unfolding forget_multi Fallible.◌>>=◌ Effect.◌>>=◌
forget_multi-each [] e w = refl
forget_multi-each (f ∷ forgets) e w =
    rw (forget-unref f.ino f.nlookup e w)
      (rest-same (unref f.ino f.nlookup e w) _ _ e (λ v. forget_multi-each forgets e v))
