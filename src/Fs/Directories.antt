-- ===== src/Fs/Directories.antt =====
-- The directory streams that OpenDir hands to the kernel (pafs/page_align_fs.cc): the address of a
-- Directory in `fh`.
pub mod Opened
pub mod RoundTrip
use pagealignfs.Prelude.{
  ℕ, ◌+◌, ◌<◌, ◌≤◌, ◌≡◌, refl, arith, List, [], ◌∷◌, Option, none, some, ◌==◌, Bool-cases, inl, inr,
  Option-cases,
}
use pagealignfs.World.{World, Directory}
use pagealignfs.Fs.Streams.{find_directory, remove_directory}

-- The handles are addresses that were given out; none is null, and none stands twice.
abbrev pub Handles : ℕ → List (ℕ × Directory) → Type 0
Handles next [] = Unit {0}
Handles next ((q, d) ∷ rest) =
    (0 < q) × (q < next) × (find_directory q rest ≡ none) × Handles next rest

abbrev pub HasHandles : World → Type 0
HasHandles w = (0 < w.next_address) × Handles w.next_address w.directories

pub Handles-mono : (n m : ℕ) (ds : List (ℕ × Directory)) → n ≤ m → Handles n ds → Handles m ds
Handles-mono n m [] le h = tt
Handles-mono n m ((q, d) ∷ rest) le (pos, below, alone, h) =
    (pos, omega arith, alone, Handles-mono n m rest le h)

-- An address that is not given out yet is no handle.
pub find_directory-fresh :
    (n : ℕ) (ds : List (ℕ × Directory)) → Handles n ds → find_directory n ds ≡ none
unfolding find_directory
find_directory-fresh n [] h = refl
find_directory-fresh n ((q, d) ∷ rest) (pos, below, alone, h) =
    ground (arith, find_directory-fresh n rest h)

find_directory-removed :
    (q p : ℕ) (ds : List (ℕ × Directory))
    → find_directory q ds ≡ none
    → find_directory q (remove_directory p ds) ≡ none
unfolding find_directory remove_directory
find_directory-removed q p [] gone = refl
find_directory-removed q p ((x, d) ∷ rest) gone = ground (arith, find_directory-removed q p rest)

pub Handles-remove :
    (n p : ℕ) (ds : List (ℕ × Directory)) → Handles n ds → Handles n (remove_directory p ds)
unfolding remove_directory
Handles-remove n p [] h = tt
Handles-remove n p ((q, d) ∷ rest) (pos, below, alone, h) = elim (Bool-cases (q == p)) [
  | inl same ↦ rw same h
  | inr other ↦
      rw other (pos, below, find_directory-removed q p rest alone, Handles-remove n p rest h)
]

-- A handle that is deleted is none any more.
pub find_directory-deleted :
    (n p : ℕ) (ds : List (ℕ × Directory))
    → Handles n ds
    → find_directory p (remove_directory p ds) ≡ none
unfolding find_directory remove_directory
find_directory-deleted n p [] h = refl
find_directory-deleted n p ((q, d) ∷ rest) (pos, below, alone, h) =
    ground (arith, find_directory-deleted n p rest h, alone)
