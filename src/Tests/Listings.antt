-- ===== src/Tests/Listings.antt =====
-- The theorems on the listing of a directory at concrete inputs.
use pagealignfs.Prelude.{◌≢◌, some, arith, false, [], ◌∷◌}
use pagealignfs.Prelude.Int.{pos}
use pagealignfs.Prelude.Bytes.{text}
use pagealignfs.System.{Env}
use pagealignfs.System.Types.{FileInfo}
use pagealignfs.Effect.{diverged}
use pagealignfs.Fs.Streams.{read_dir, read_dir_plus}
use pagealignfs.Fs.Listing.Rounds.{Measures, read_dir-ends}
use pagealignfs.Tests.Sample.{sample, looked_up}
use pagealignfs.World.{World}

-- A directory that never ends, and entries of 24 bytes.
abbrev endless : Env
endless = record sample {
  answer = λ h c. record (sample.answer h c) {
    rc = pos 24;
    entry = some (record { d_name = text "a"; d_off = 1 });
  };
}

endless-Measures : Measures endless 4096
endless-Measures = record {
  measured = λ name param offset used small. record {
    small = λ h req. omega (arith, small);
    small_plus = λ h req. omega (arith, small);
  };
  takes_room = λ name param offset. record {
    at_small = λ h req. omega arith;
    at_plus = λ h req. omega arith;
  };
}

abbrev no_flags : FileInfo
no_flags = record { flags = 0; fh = 5; noflush = false; parallel_direct_writes = false; others = 0 }

abbrev listing_open : World
listing_open = record looked_up { req = some 11; directories = (5, record { dir = 9 }) ∷ [] }

read_dir-ends_example :
    (read_dir 4096 4096 0 no_flags endless listing_open ≢ diverged)
    × (read_dir_plus 4096 4096 0 no_flags endless listing_open ≢ diverged)
read_dir-ends_example = read_dir-ends endless 4096 endless-Measures 4096 0 no_flags listing_open
