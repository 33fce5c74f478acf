-- ===== src/Fs/Listing/Rounds.antt =====
-- The loop of ReadDirInternal (pafs/page_align_fs.cc): what its rounds write, and its fuel.
use pagealignfs.Prelude.{
  ℕ, zero, suc, ◌+◌, ◌<◌, ◌≤◌, ◌≡◌, ◌≢◌, ◌∙◌, refl, arith, Bool, true, false, List, [], ◌∷◌, ◌++◌,
  Option, none, some, length, if◌then◌else◌,
}
use pagealignfs.Prelude.Bytes.{Text}
use pagealignfs.System.{Env}
use pagealignfs.System.Types.{Dirent, EntryParam, FileInfo}
use pagealignfs.World.{World}
use pagealignfs.Status.{StatusOr, ok, err}
use pagealignfs.Effect
use pagealignfs.Effect.{M, Run, done, and_then, diverged}
use pagealignfs.Effect.Fallible
use pagealignfs.Effect.Fallible.{E, lift, continue}
use pagealignfs.Effect.Finishes.{
  Ends, ends, Ends-bind, Ends-try, Ends-lift_then, Ends-finite, Finishes, Quiet-Finishes,
  finishes_rules,
}
use pagealignfs.Syscalls.Quiet.{readdir-Quiet, seekdir-Quiet}
use pagealignfs.Request.DirsBuilder
use pagealignfs.Request.DirsBuilder.{FuseDirsBuilder, add_dir_entry}
use pagealignfs.Request.Fits.{Fits, IsMeasured, TakesRoom, add_dir_entry-Written}
use pagealignfs.InodeCache.{ref}
use pagealignfs.Fs.Streams.{
  Progress, full, listed, retained, add_entry, end_round, next_round, list_found, list_entry,
  list_entries, read_dir_internal, read_dir, read_dir_plus, Listing,
}
use pagealignfs.Fs.Listing.{
  ref-Finishes, unref-Finishes, find_or_create-Finishes, create_fuse_entry_param-Finishes,
  finish_listing-Finishes, get_directory-Finishes, get_inode-Finishes,
}

-- What libfuse measures for an entry is not empty, and does not overflow with a buffer of `size`.
pub record Measures (e : Env) (size : ℕ) : Type 0 where
  pub measured :
      (name : Text) (param : EntryParam) (offset used : ℕ)
      → used ≤ size
      → IsMeasured e name param offset used
  pub takes_room : (name : Text) (param : EntryParam) (offset : ℕ) → TakesRoom e name param offset

-- The buffer is within its bound, and longer than that of `b`.
abbrev Grown : FuseDirsBuilder → FuseDirsBuilder → Type 0
Grown b b' = Fits b' × (b'.maxsize ≡ b.maxsize) × (length b.buf < length b'.buf)

-- What a round has done to the builder.
unfoldable Went : FuseDirsBuilder → StatusOr Progress → Type 0
Went b (err st) = Unit {0}
Went b (ok full) = Unit {0}
Went b (ok (listed b')) = Grown b b'
Went b (ok (retained b')) = Grown b b'

end_round-Finishes : (ino : ℕ) (r : StatusOr Progress) → Finishes (end_round ino r)
unfolding end_round
end_round-Finishes ino (ok (retained dirs)) = search finishes_rules
end_round-Finishes ino (ok full) = search (finishes_rules, unref-Finishes)
end_round-Finishes ino (ok (listed dirs)) = search (finishes_rules, unref-Finishes)
end_round-Finishes ino (err st) = search (finishes_rules, unref-Finishes)

module _ (e : Env) (size : ℕ) (m : Measures e size) where
  -- The rest of a round, by what AddDirEntry answers.
  kept-Went :
      (ino : ℕ) (b : FuseDirsBuilder) (plus added : Bool) (b' : FuseDirsBuilder) (w : World)
      → ((added ≡ true) → Grown b b')
      → Ends
          (λ r _. Went b r)
          ((if added
              then (if plus
                  then Fallible.◌>>◌ (ref ino 1) (Fallible.pure (retained b'))
                  else Fallible.pure (listed b'))
              else Fallible.pure full)
            e w)
  unfolding Went Fallible.pure Effect.pure
  kept-Went ino b plus false b' w grown = ends tt
  kept-Went ino b false true b' w grown = ends (grown refl)
  kept-Went ino b true true b' w grown =
      Ends-try _ e (ref ino 1) w (ref-Finishes ino 1) (λ st w'. tt) λ _ w'. ends (grown refl)

  add_entry-Went :
      (ino : ℕ) (ent : Dirent) (plus : Bool) (b : FuseDirsBuilder) (w : World)
      → Fits b
      → b.maxsize ≡ size
      → Ends (λ r _. Went b r) (add_entry ino ent plus b e w)
  unfolding add_entry Went
  add_entry-Went ino ent plus b w fits bound =
      Ends-try _ e _ w (create_fuse_entry_param-Finishes ino plus) (λ st w'. tt)
        λ param w'.
          let room : length b.buf ≤ size = omega (arith, fits, bound) in
          let written =
            add_dir_entry-Written b ent.d_name param ent.d_off fits e
              (m.measured ent.d_name param ent.d_off (length b.buf) room) w' in
          Ends-lift_then _ e _ w' written λ (added, b') w'' ((fits', same, _), grows).
            kept-Went ino b plus added b' w''
              λ h. (fits', same, grows (m.takes_room ent.d_name param ent.d_off) h)

  module _ (dir_inode dir : ℕ) (plus : Bool) (loop : FuseDirsBuilder → List ℕ → M Listing)
      (b : FuseDirsBuilder)
      (goes_on : (b' : FuseDirsBuilder) (inodes : List ℕ) (w : World)
        → Grown b b'
        → Ends (λ _ _. Unit {0}) (loop b' inodes e w)) where
    next_round-Ends :
        (inodes : List ℕ) (ino : ℕ) (r : StatusOr Progress) (w : World)
        → Went b r
        → Ends (λ _ _. Unit {0}) (next_round loop b inodes ino r e w)
    unfolding next_round Went Effect.pure
    next_round-Ends inodes ino (err st) w g = ends tt
    next_round-Ends inodes ino (ok full) w g = ends tt
    next_round-Ends inodes ino (ok (listed b')) w g = goes_on b' inodes w g
    next_round-Ends inodes ino (ok (retained b')) w g = goes_on b' (inodes ++ ino ∷ []) w g

    module _ (fits : Fits b) (bound : b.maxsize ≡ size) (inodes : List ℕ) where
      list_found-Ends :
          (ent : Dirent) (r : StatusOr ℕ) (w : World)
          → Ends (λ _ _. Unit {0}) (list_found loop ent plus b inodes r e w)
      unfolding list_found Effect.◌>>=◌ Effect.pure
      list_found-Ends ent (err st) w = ends tt
      list_found-Ends ent (ok ino) w =
          Ends-bind (add_entry-Went ino ent plus b w fits bound) λ r w' went.
            Ends-bind ((end_round-Finishes ino r).at e w')
              λ _ w'' _. next_round-Ends inodes ino r w'' went

      list_entry-Ends :
          (r : StatusOr (Option Dirent)) (w : World)
          → Ends (λ _ _. Unit {0}) (list_entry loop dir_inode plus b inodes r e w)
      unfolding list_entry Effect.◌>>=◌ Effect.pure
      list_entry-Ends (err st) w = ends tt
      list_entry-Ends (ok none) w = ends tt
      list_entry-Ends (ok (some ent)) w =
          Ends-bind ((find_or_create-Finishes dir_inode ent.d_name).at e w)
            λ r w' _. list_found-Ends ent r w'

  list_entries-Ends :
      (fuel dir_inode dir : ℕ) (plus : Bool) (b : FuseDirsBuilder) (inodes : List ℕ) (w : World)
      → Fits b
      → b.maxsize ≡ size
      → size < fuel + length b.buf
      → Ends (λ _ _. Unit {0}) (list_entries fuel dir_inode dir plus b inodes e w)
  unfolding list_entries Effect.◌>>=◌
  list_entries-Ends zero dir_inode dir plus b inodes w fits bound enough = ground (arith, fits)
  list_entries-Ends (suc fuel) dir_inode dir plus b inodes w fits bound enough =
      Ends-bind ((Quiet-Finishes _ (readdir-Quiet dir)).at e w) λ r w' _.
        list_entry-Ends dir_inode dir plus (λ b' i'. list_entries fuel dir_inode dir plus b' i') b
          (λ b' inodes' w'' (fits', same, longer).
            list_entries-Ends fuel dir_inode dir plus b' inodes' w'' fits' (same ∙ bound)
              (omega (arith, enough, longer)))
          fits bound inodes r w'

  read_dir_internal-Ends :
      (ino off : ℕ) (fi : FileInfo) (plus : Bool) (w : World)
      → Ends (λ _ _. Unit {0}) (read_dir_internal ino size off fi plus e w)
  unfolding read_dir_internal DirsBuilder.create
  read_dir_internal-Ends ino off fi plus w =
      Ends-lift_then _ e _ w ((get_directory-Finishes fi.fh).at e w) λ d w1 _.
        Ends-try _ e _ w1 (Quiet-Finishes _ (seekdir-Quiet d.dir off)) (λ st w'. tt)
          λ _ w2.
            Ends-lift_then _ e _ w2
              (list_entries-Ends (suc size) ino d.dir plus
                (record { plus = plus; maxsize = size; buf = [] }) [] w2 (omega arith) refl
                (omega arith))
              λ (r, inodes) w3 _. (finish_listing-Finishes r inodes).at e w3

  -- ReadDir and ReadDirPlus come to an end, whatever the directory holds: the rounds that the size
  -- of the reply allows are enough, if libfuse measures no entry as empty and no overflow.
  pub read_dir-ends :
      (ino off : ℕ) (fi : FileInfo) (w : World)
      → (read_dir ino size off fi e w ≢ diverged) × (read_dir_plus ino size off fi e w ≢ diverged)
  unfolding read_dir read_dir_plus
  read_dir-ends ino off fi w = (
    Ends-finite (
        Ends-lift_then _ e _ w ((get_inode-Finishes ino).at e w)
          λ _ w' _. read_dir_internal-Ends ino off fi false w'),
    Ends-finite (
        Ends-lift_then _ e _ w ((get_inode-Finishes ino).at e w)
          λ _ w' _. read_dir_internal-Ends ino off fi true w'),
  )
