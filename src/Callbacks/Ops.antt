-- ===== src/Callbacks/Ops.antt =====
-- The GetFuse…Op templates of pafs/fuse_ops.h, by what their callbacks are about.
pub mod Entries
pub mod Names
pub mod Files
pub mod Streams
pub mod XAttrs
pub mod Locks
