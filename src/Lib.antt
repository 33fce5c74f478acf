-- ===== src/Lib.antt =====
-- pagealignfs: a pass-through file system for libfuse, and what its functions guarantee.
--
-- libfuse calls one callback for each request. The callback wraps the request into a FuseRequest
-- and runs a handler of PageAlignFS, which makes system calls on descriptors below the source
-- directory and replies. Inodes are found and counted in the InodeCache; an inode number that the
-- kernel gets is the address of the cached Inode. The files and the code that they model:
--
--   Status, Status/*     pafs/status.h, pafs/status.cc, pafs/errno.cc: StatusOr is absl::StatusOr
--   World                the members of PageAlignFS, Inode, InodeCache, FuseRequest and of the
--                        owning handles (page_align_fs.h, inode.h, fuse.h, fd.h, dir.h)
--   Effect, Effect/*     how a run goes: it returns, fails a CHECK (aborted), follows a dangling
--                        pointer (faulted) or uses up its fuel (diverged); Effect/Fallible has the
--                        macros of pafs/status.h as a bind, Effect/Keeps the rules for invariants
--                        of runs that return, Effect/Ensures those for runs that do return, and
--                        Effect/Finishes those for runs that come to an end
--   Syscalls, Syscalls/* pafs/syscalls.h and pafs/syscalls.cc, one function for each wrapper
--   Resource/*           pafs/fd.cc, dir.cc, mount.cc, signal.cc and FusePollHandle of fuse.cc; a
--                        destructor is called where its scope ends
--   Inode, InodeCache    pafs/inode.cc; InodeCache/Counts, Rows, References, Live and Reach have the
--                        counts, the rows of the map, and what Insert, Ref and Unref do to them;
--                        InodeCache/Ledger is an abstract machine for its counts, and
--                        InodeCache/Generation what GetGeneration keeps, and InodeCache/Erased the
--                        rows that Unref leaves
--   Request, Request/*   pafs/fuse.cc: FuseRequest, its replies and FuseDirsBuilder
--   Fs/*                 pafs/page_align_fs.cc: Entries (Create, Lookup, Forget and the helpers),
--                        Names (the changes of a directory), Attrs, Files, Locks, XAttrs, and
--                        Streams (directories); Fs/Keeps says which invariants the handlers keep,
--                        Fs/CacheKeeps that the cache is one, Fs/Balance what the handlers that
--                        answer with an entry count, Fs/Descriptors what they open and close,
--                        Fs/Listing how the loop of ReadDirInternal ends, Fs/Handles a file from
--                        Open to Release, Fs/Directories the directory streams that the kernel has
--                        handles of, Fs/Batch ForgetMulti by Forget, Fs/Changes the calls of SetAttr,
--                        and Fs/Steady the handlers that only read the state
--   Callbacks, Callbacks/*  pafs/fuse_ops.h: the concepts (Concepts), a class as the operations that
--                        it has (Class), the GetFuse…Op templates (Ops), the table that
--                        AsFuseLowLevelOps makes of them (LowLevel), and how a callback runs an
--                        operation and replies (Replying). Fs/Class is the class PageAlignFS of
--                        pafs/page_align_fs.h. Callbacks/Handlers is the interface of a class whose
--                        operations keep an invariant, Callbacks/Serving what the callbacks make of
--                        it, and Callbacks/PageAlign fills it; Callbacks/Owed and OneReply count
--                        the replies, and Callbacks/Directed says whom they go to. Callbacks/Forgets follows a Forget
--                        down to the cache, Callbacks/SetLk, WriteBuf and GetXAttr have the replies
--                        of three callbacks, and Callbacks/Steady has those that only read the
--                        state
--   Process, Process/*   pafs/main.cc; Process/Scopes has what libfuse's calls acquire and release
--   Tests, Tests/*       the theorems at concrete inputs, and a run from a fresh state
--
-- The C library, the kernel, libfuse and absl are fields of System.Env, a parameter of every run:
-- what a call answers may depend on all the calls before it. What the theorems need of absl is
-- listed in Status/Laws. Exceptions, allocation failures and logging are left out. The callbacks
-- run one at a time: the source has no lock, and what the threads of fuse_session_loop_mt make of that
-- is not modelled. The flat_hash_map of the cache is a list of rows with its find, write and erase. A
-- callback's CHECK of the user data is left out: it is the PageAlignFS that Main passes to libfuse. A null member of the table cannot be called.
--
-- Fuel: `list_entries` of Fs/Streams gets one round more than the size of the reply, since an entry
-- takes a byte at least (Fs/Listing/Rounds). `umount` of Resource/Mount takes the depth of its own
-- recursion.
--
-- libfuse's session loop is a parameter of Process, and so is what it reads off the command line.
--
-- Not modelled: the build files, and the headers and the libfuse configuration under third_party.
pub mod Prelude
pub mod System
pub mod Status
pub mod World
pub mod Effect
pub mod Syscalls
pub mod Resource
pub mod Inode
pub mod InodeCache
pub mod Request
pub mod Fs
pub mod Callbacks
pub mod Process
pub mod Tests
