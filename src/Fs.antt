-- ===== src/Fs.antt =====
-- class PageAlignFS of pafs/page_align_fs.h and pafs/page_align_fs.cc: one function for each
-- request. A handler gets the number of an inode and follows it first (`GetInode`, and the log
-- line that reads the object).
pub mod Keeps
pub mod Balance
pub mod Listing
pub mod Descriptors
pub mod Told
pub mod Handles
pub mod Batch
pub mod CacheKeeps
pub mod Entries
pub mod Names
pub mod Attrs
pub mod Files
pub mod Locks
pub mod XAttrs
pub mod Streams
pub mod Class
pub mod Steady
pub mod Changes
pub mod Directories
