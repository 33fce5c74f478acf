-- ===== src/Syscalls.antt =====
-- pafs/syscalls.h and pafs/syscalls.cc: the calls of the C library with their errors as statuses.
pub mod Errors
pub mod Files
pub mod Tree
pub mod Streams
pub mod Process
pub mod Keeps
pub mod Quiet
