-- ===== src/Fs/Told.antt =====
-- What the kernel was told of an open file.
use pagealignfs.Prelude.{Option, none, some, List, [], ◌∷◌}
use pagealignfs.System.{Event}
use pagealignfs.System.Types.{FileInfo}
use pagealignfs.System.Calls.{Call, Reply}

abbrev told_by : Call → Option FileInfo
told_by (Call.fuse_reply req (Reply.open_file fi)) = some fi
told_by _ = none

-- by the latest call
abbrev pub latest : List Event → Option FileInfo
latest [] = none
latest (ev ∷ before) = told_by ev.call
