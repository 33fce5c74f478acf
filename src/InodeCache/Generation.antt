-- ===== src/InodeCache/Generation.antt =====
-- GetGeneration of pafs/inode.cc, and the answer that an inode keeps.
use pagealignfs.Prelude.{
  ℕ, Bool-cases, ==_iff, ap, inl, inr, ◌≡◌, refl, false, ◌==◌, Option, none, some,
}
use pagealignfs.System.{Env}
use pagealignfs.World.{World, Inode, Entry}
use pagealignfs.Status.{StatusOr}
use pagealignfs.Effect
use pagealignfs.Effect.{done, gets, modify}
use pagealignfs.Effect.Fallible
use pagealignfs.Effect.Fallible.{lift, attempt}
use pagealignfs.Effect.Returns.{Returns, returns}
use pagealignfs.Effect.Ensures.{Ensures, Ensures-lift_then}
use pagealignfs.Inode
use pagealignfs.Inode.{
  entry_at, get_inode, set_inode, set_at, get_fd, get_generation, generation_or_read,
  get_file_version_from_path_fd,
}
use pagealignfs.InodeCache.Reach.{IsLive}
use pagealignfs.InodeCache.Rows.{entry_at-set_at}
use pagealignfs.Inode.Quiet.{version-Quiet}

-- The number leads to this inode.
abbrev pub Leads : ℕ → Inode → World → Type 0
Leads ino i w = (e : Env) → get_inode ino e w ≡ done i w

-- A write to the object is seen by the next read.
pub record IsStored (ino : ℕ) (i : Inode) (w : World) : Type 0 where
  pub reads : Leads ino i w
  pub rereads :
      (e : Env) (v : World) → v ≡ record w { trace = v.trace } → get_inode ino e v ≡ done i v
  pub writes :
      (j : Inode) (e : Env) (v : World)
      → v ≡ record w { trace = v.trace }
      → Returns (λ _ v'. Leads ino j v') (set_inode ino j e v)

root-IsStored : (w : World) → IsStored 1 w.root w
unfolding get_inode set_inode gets modify
root-IsStored w = record {
  reads = λ e. refl;
  rereads = λ e v same. ap {A = World} (λ u. done u.root v) same;
  writes = λ j e v same. returns (λ e'. refl);
}

cached-IsStored :
    (ino : ℕ) (w : World) (x : Entry)
    → (ino == 1) ≡ false
    → entry_at ino w.inodes ≡ some x
    → IsStored ino x.inode w
unfolding get_inode set_inode Inode.or_fault gets modify Effect.◌>>=◌ Effect.pure
cached-IsStored ino w x other found = record {
  reads = λ e. rw (other, found) refl;
  rereads = λ e v same.
      let rows = ap {A = World} (λ u. u.inodes) same in
      let there : entry_at ino v.inodes ≡ some x = rw rows found in rw (other, there) refl;
  writes = λ j e v same.
      let rows = ap {A = World} (λ u. u.inodes) same in
      let there : entry_at ino v.inodes ≡ some x = rw rows found in
      let written = entry_at-set_at ino j v.inodes x there in
      rw other (returns (λ e'. rw written refl));
}

pub live-IsStored : (ino : ℕ) (w : World) → IsLive ino w → (i : Inode) × IsStored ino i w
live-IsStored ino w (inl root) = rw root ((w.root, root-IsStored w))
live-IsStored ino w (inr (x, found)) = elim (Bool-cases (ino == 1)) [
  | inl root ↦ let same : ino ≡ 1 = (==_iff ino 1).0 root in rw same ((w.root, root-IsStored w))
  | inr other ↦ (x.inode, cached-IsStored ino w x other found)
]

kept-Leads :
    (ino : ℕ) (i : Inode) (r : StatusOr ℕ) (e : Env) (w : World)
    → Leads ino i w
    → i.generation ≡ some r
    → get_generation ino e w ≡ done r w
unfolding get_generation generation_or_read lift Fallible.◌>>=◌ Effect.◌>>=◌ Effect.pure
    Fallible.continue Fallible.return
kept-Leads ino i r e w reads kept = rw (reads e, kept) refl

-- The same again.
abbrev Memoised : ℕ → Env → StatusOr ℕ → World → Type 0
Memoised ino e' r w' = get_generation ino e' w' ≡ done r w'

-- The answer is read, or it is there already; either way it is kept.
generation_or_read-Memoised :
    (ino : ℕ) (i : Inode) (g : Option (StatusOr ℕ)) (e' : Env) (w : World)
    → IsStored ino i w
    → i.generation ≡ g
    → Ensures (λ v. v ≡ w) (Memoised ino e') (generation_or_read ino i g)
unfolding generation_or_read attempt Fallible.return Effect.pure
generation_or_read-Memoised ino i (some r) e' w stored kept = record {
  at = λ e v same. returns (rw same (kept-Leads ino i r e' w stored.reads kept));
}
generation_or_read-Memoised ino i none e' w stored kept =
    Ensures-lift_then {Q = λ _ v. v ≡ record w { trace = v.trace }} _ _
      (record { at = λ e v same. rw same ((version-Quiet (get_fd i)).at e w) })
      λ r.
        Ensures-lift_then {Q = λ _ v. Leads ino (record i { generation = some r }) v} _ _
          (record { at = λ e v same. stored.writes (record i { generation = some r }) e v same })
          λ _. record {
            at = λ e v reads.
                returns (kept-Leads ino (record i { generation = some r }) r e' v reads refl);
          }

-- GetGeneration of an inode returns, and what it answered, a failure too, it answers ever after: a
-- second GetGeneration makes no call and changes nothing.
pub get_generation-memoised :
    (ino : ℕ) (e e' : Env) (w : World)
    → IsLive ino w
    → Returns (λ r w'. get_generation ino e' w' ≡ done r w') (get_generation ino e w)
unfolding get_generation lift Fallible.◌>>=◌ Effect.◌>>=◌ Effect.pure Fallible.continue
get_generation-memoised ino e e' w live =
    let (i, stored) = live-IsStored ino w live in
    rw (stored.reads e)
      ((generation_or_read-Memoised ino i i.generation e' w stored refl).at e w refl)
