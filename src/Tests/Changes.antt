-- ===== src/Tests/Changes.antt =====
-- The theorem on SetAttr at a concrete input.
use pagealignfs.Prelude.{some, true, false}
use pagealignfs.Prelude.Int.{pos}
use pagealignfs.System.{Env}
use pagealignfs.System.Types.{ToSet, FileInfo}
use pagealignfs.World.{World, Inode}
use pagealignfs.Effect.Returns.{Returns}
use pagealignfs.Tests.Sample.{sample, mounted}

-- A kernel that answers 0.
abbrev willing : Env
willing = record sample { answer = λ h c. record (sample.answer h c) { rc = pos 0 } }

abbrev chmod_chgrp : ToSet
chmod_chgrp = record {
  mode = true;
  uid = false;
  gid = true;
  size = false;
  atime = false;
  mtime = false;
  atime_now = false;
  mtime_now = false;
}

abbrev handle_5 : FileInfo
handle_5 = record { flags = 0; fh = 5; noflush = false; parallel_direct_writes = false; others = 0 }

abbrev asked : World
asked = record mounted { req = some 11 }
