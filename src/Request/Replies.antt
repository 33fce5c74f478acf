-- ===== src/Request/Replies.antt =====
-- The replies of FuseRequest, each by its function of libfuse.
use pagealignfs.Prelude.{ℕ}
use pagealignfs.Prelude.Int.{ℤ}
use pagealignfs.Prelude.Bytes.{Text, text}
use pagealignfs.System.Types.{Stat, FileInfo, EntryParam, Bufvec, Flock}
use pagealignfs.System.Calls.{Reply}
use pagealignfs.Effect.Fallible.{E}
use pagealignfs.Request.{send}

unfoldable pub reply_attr : Stat → (timeout : ℤ) → E (Unit {0})
reply_attr attr timeout = send (Reply.attr attr timeout) (text "fuse_reply_attr")

unfoldable pub reply_open : FileInfo → E (Unit {0})
reply_open fi = send (Reply.open_file fi) (text "fuse_reply_open")

unfoldable pub reply_create : EntryParam → FileInfo → E (Unit {0})
reply_create entry fi = send (Reply.create entry fi) (text "fuse_reply_create")

unfoldable pub reply_buf : Text → E (Unit {0})
reply_buf buf = send (Reply.buf buf) (text "fuse_reply_buf")

unfoldable pub reply_data : Bufvec → (flags : ℕ) → E (Unit {0})
reply_data bufv flags = send (Reply.contents bufv flags) (text "fuse_reply_data")

unfoldable pub reply_entry : EntryParam → E (Unit {0})
reply_entry param = send (Reply.entry param) (text "fuse_reply_entry")

unfoldable pub reply_read_link : Text → E (Unit {0})
reply_read_link link = send (Reply.readlink link) (text "fuse_reply_readlink")

unfoldable pub reply_write : ℕ → E (Unit {0})
reply_write bytes_written = send (Reply.write bytes_written) (text "fuse_reply_write")

unfoldable pub reply_stat_fs : Text → E (Unit {0})
reply_stat_fs stbuf = send (Reply.statfs stbuf) (text "fuse_reply_statfs")

unfoldable pub reply_lock : Flock → E (Unit {0})
reply_lock lock = send (Reply.lock lock) (text "fuse_reply_lock")

unfoldable pub reply_l_seek : ℤ → E (Unit {0})
reply_l_seek off = send (Reply.lseek off) (text "fuse_reply_lseek")

unfoldable pub reply_poll : ℕ → E (Unit {0})
reply_poll revents = send (Reply.poll revents) (text "fuse_reply_poll")
