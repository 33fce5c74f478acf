-- ===== src/World.antt =====
-- The state of the running program: the objects of pafs/inode.h, pafs/fd.h, pafs/dir.h and
-- pafs/fuse.h that outlive a call, and the trace of the calls that left the program.
use pagealignfs.Prelude.{ℕ, Option, List}
use pagealignfs.Prelude.Int.{ℤ}
use pagealignfs.Status.{StatusOr}
use pagealignfs.System.{Event}

-- pafs::FileDescriptor: -1 when empty or moved from
pub record FileDescriptor : Type 0 where
  pub fd : ℤ

-- pafs::FusePollHandle: 0 is the null pointer
pub record FusePollHandle : Type 0 where
  pub handle : ℕ

-- pafs::Directory
pub record Directory : Type 0 where
  pub dir : ℕ

-- pafs::Inode
pub record Inode : Type 0 where
  pub fd : FileDescriptor
  pub num : ℕ
  pub src_dev_num : ℕ
  pub generation : Option (StatusOr ℕ)
  pub poll_handle : FusePollHandle

-- The key of InodeCache::inodes_.
pub record Key : Type 0 where
  pub dev : ℕ
  pub ino : ℕ

-- A row of InodeCache::inodes_: `address` is that of the object that the unique_ptr holds.
pub record Entry : Type 0 where
  pub key : Key
  pub refcnt : ℕ
  pub inode : Inode
  pub address : ℕ

-- PageAlignFS::Options: durations are only passed on
pub record Options : Type 0 where
  pub kernel_entry_timeout : ℤ
  pub kernel_attribute_timeout : ℤ

-- `root`, `inodes` and `opts` are the members of PageAlignFS; `req` is `req_` of the FuseRequest
-- of the callback that runs. `new` gives out `next_address`, and no address twice, so a pointer to
-- an object that is gone is seen to dangle.
pub record World : Type 0 where
  pub trace : List Event
  pub req : Option ℕ
  pub root : Inode
  pub inodes : List Entry
  pub directories : List (ℕ × Directory)
  pub next_address : ℕ
  pub opts : Options
