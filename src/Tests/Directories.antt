-- ===== src/Tests/Directories.antt =====
-- The theorems on directory streams at concrete inputs.
use pagealignfs.Prelude.{◌≡◌, refl, some, none, arith, inl, inr, false, [], ◌∷◌}
use pagealignfs.System.{Answer}
use pagealignfs.System.Types.{FileInfo}
use pagealignfs.System.Calls.{Call}
use pagealignfs.World.{World, Inode}
use pagealignfs.Status.{ok}
use pagealignfs.Effect.Returns.{Returns}
use pagealignfs.Fs.Streams.{open_dir, release_dir, find_directory, remove_directory}
use pagealignfs.Fs.Directories.{HasHandles}
use pagealignfs.Fs.Directories.RoundTrip.{IsUndone, open_release, open_release-round_trip}
use pagealignfs.Fs.Directories.Opened.{Ends, open_dir-opened, release_dir-closed}
use pagealignfs.Effect.{done}
use pagealignfs.Inode.{get_inode}
use pagealignfs.Tests.Sample.{sample, looked_up, a_row}

abbrev handle_5 : FileInfo
handle_5 = record { flags = 0; fh = 5; noflush = false; parallel_direct_writes = false; others = 0 }

-- Two directory streams are open, and a request is pending.
abbrev two_open : World
two_open = record looked_up {
  req = some 11;
  directories = (6, record { dir = 8 }) ∷ (5, record { dir = 9 }) ∷ [];
}

two_open-HasHandles : HasHandles two_open
unfolding find_directory
two_open-HasHandles =
    (omega arith, (omega arith, omega arith, refl, (omega arith, omega arith, refl, tt)))

open_dir-opened_example :
    Returns
      (λ r w.
        (i : Inode) × (get_inode 4096 sample two_open ≡ done i two_open)
        × Ends i 11 handle_5 two_open r w)
      (open_dir 4096 handle_5 sample two_open)
unfolding pagealignfs.Inode.entry_at
open_dir-opened_example = open_dir-opened 4096 handle_5 11 sample two_open (inr (a_row, refl)) refl

release_dir-closed_example :
    Returns
      (λ r w.
        (r ≡ ok tt)
        × ((a : Answer) × (w ≡ record two_open {
          trace = (record { call = Call.closedir 9; answer = a }) ∷ two_open.trace;
          directories = (6, record { dir = 8 }) ∷ [];
        }))
        × (find_directory 5 w.directories ≡ none))
      (release_dir 1 handle_5 sample two_open)
unfolding find_directory remove_directory
release_dir-closed_example =
    release_dir-closed 1 handle_5 (record { dir = 9 }) sample two_open (inl refl)
      two_open-HasHandles refl (omega arith)

open_release-round_trip_example :
    Returns
      (λ r w.
        (i : Inode) × (get_inode 4096 sample two_open ≡ done i two_open)
        × IsUndone i 11 handle_5 two_open r w)
      (open_release 4096 handle_5 sample two_open)
unfolding pagealignfs.Inode.entry_at
open_release-round_trip_example =
    open_release-round_trip 4096 11 handle_5 sample two_open (inr (a_row, refl)) two_open-HasHandles
      refl
