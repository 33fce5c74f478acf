-- ===== src/Resource/Stream.antt =====
-- pafs/dir.h and pafs/dir.cc: a Directory owns a DIR of the C library.
use pagealignfs.Prelude.{ℕ, ◌==◌, if◌then◌else◌}
use pagealignfs.World.{FileDescriptor, Directory}
use pagealignfs.Effect
use pagealignfs.Effect.{M}
use pagealignfs.Effect.Fallible.{E, pure, ◌>>=◌, log_if_error}
use pagealignfs.Syscalls.Streams.{fdopendir, closedir}

-- ~Directory
unfoldable pub destroy : Directory → M (Unit {0})
destroy this = if this.dir == 0 then Effect.pure tt else log_if_error (closedir this.dir)

-- Directory::Create
unfoldable pub create : FileDescriptor → E Directory
unfolding fdopendir
create dirfd = do dir ← fdopendir dirfd; pure (record { dir = dir })

-- Release: the DIR, and what the object is left as
unfoldable pub release : Directory → ℕ × Directory
release this = (this.dir, record this { dir = 0 })

-- operator=(Directory &&): both objects afterwards
unfoldable pub move_assign : Directory → Directory → Directory × Directory
move_assign this o = (record this { dir = o.dir }, record o { dir = this.dir })

-- Directory(Directory &&)
unfoldable pub move_construct : Directory → Directory × Directory
unfolding move_assign
move_construct o = move_assign (record { dir = 0 }) o
