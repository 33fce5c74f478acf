-- ===== src/Tests/Handles.antt =====
-- The theorems on what an inode and an open file keep at concrete inputs.
use pagealignfs.Prelude.{◌≡◌, refl, some, inl, inr, false}
use pagealignfs.System.Types.{FileInfo}
use pagealignfs.World.{World, Inode}
use pagealignfs.Effect.{done}
use pagealignfs.Effect.Returns.{Returns}
use pagealignfs.Inode.{get_generation, get_inode}
use pagealignfs.InodeCache.Generation.{get_generation-memoised}
use pagealignfs.Fs.Handles.{IsClosed, open_release, open_ino-released}
use pagealignfs.Tests.Sample.{sample, looked_up, a_row}

get_generation-memoised_example :
    Returns (λ r w. get_generation 4096 sample w ≡ done r w) (get_generation 4096 sample looked_up)
unfolding pagealignfs.Inode.entry_at
get_generation-memoised_example =
    get_generation-memoised 4096 sample sample looked_up (inr (a_row, refl))

abbrev a_file : FileInfo
a_file = record { flags = 2; fh = 0; noflush = false; parallel_direct_writes = false; others = 0 }

abbrev asked : World
asked = record looked_up { req = some 11 }

open_ino-released_example :
    Returns
      (λ r w.
        (i : Inode) × (get_inode 1 sample asked ≡ done i asked)
        × IsClosed sample i 11 a_file asked r w)
      (open_release 1 a_file sample asked)
open_ino-released_example =
    open_ino-released 1 11 a_file sample asked (inl refl) (λ i. (refl, refl)) refl
