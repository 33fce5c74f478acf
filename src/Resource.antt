-- ===== src/Resource.antt =====
-- The classes that own something of the kernel's or of libfuse's, and give it back at the end of
-- their life. A move constructor default-constructs and swaps; a moved-from object owns nothing.
pub mod Descriptor
pub mod PollHandle
pub mod Stream
pub mod Mount
pub mod SignalMask
