-- ===== src/Fs/Keeps/Files.antt =====
-- The handlers for open files keep what the interface keeps.
use pagealignfs.Prelude.{ℕ, Bool}
use pagealignfs.Prelude.Bytes.{Text}
use pagealignfs.System.Types.{FileInfo, Bufvec}
use pagealignfs.World.{World}
use pagealignfs.Effect.Keeps.{Keeps}
use pagealignfs.Syscalls.Keeps.Files.{file_keeps}
use pagealignfs.Fs.Keeps.{StateKeeps, resource_keeps, notify_poll_event-Keeps, fuse_buf_copy-Keeps}
use pagealignfs.Fs.Keeps.Entries.{entry_keeps}
use pagealignfs.Fs.Files.{
  open_ino, create, release_file, read, write_buf, flush, f_sync, f_allocate, copy_range, l_seek,
}

module _ {P : World → Type 0} (k : StateKeeps P) where
  pub open_ino-Keeps : (ino : ℕ) (fi : FileInfo) → Keeps P (open_ino ino fi)
  unfolding open_ino
  open_ino-Keeps ino fi =
      search
        (
          resource_keeps, entry_keeps, file_keeps, notify_poll_event-Keeps, fuse_buf_copy-Keeps,
          k.calls, k.at_send,
        )
        depth 12

  pub create-Keeps :
      (ino : ℕ) (name : Text) (mode : ℕ) (fi : FileInfo) → Keeps P (create ino name mode fi)
  unfolding create
  create-Keeps ino name mode fi =
      search
        (
          resource_keeps, entry_keeps, file_keeps, notify_poll_event-Keeps, fuse_buf_copy-Keeps,
          k.calls, k.at_send,
        )
        depth 12

  pub release_file-Keeps : (ino : ℕ) (fi : FileInfo) → Keeps P (release_file ino fi)
  unfolding release_file
  release_file-Keeps ino fi =
      search
        (
          resource_keeps, entry_keeps, file_keeps, notify_poll_event-Keeps, fuse_buf_copy-Keeps,
          k.calls, k.at_send,
        )
        depth 12

  pub read-Keeps : (ino : ℕ) (size off : ℕ) (fi : FileInfo) → Keeps P (read ino size off fi)
  unfolding read
  read-Keeps ino size off fi =
      search
        (
          resource_keeps, entry_keeps, file_keeps, notify_poll_event-Keeps, fuse_buf_copy-Keeps,
          k.calls, k.at_send,
        )
        depth 12

  pub write_buf-Keeps :
      (ino : ℕ) (in_buf : Bufvec) (off : ℕ) (fi : FileInfo) → Keeps P (write_buf ino in_buf off fi)
  unfolding write_buf
  write_buf-Keeps ino in_buf off fi =
      search
        (
          resource_keeps, entry_keeps, file_keeps, notify_poll_event-Keeps, fuse_buf_copy-Keeps,
          k.calls, k.at_send,
        )
        depth 12

  pub flush-Keeps : (ino : ℕ) (fi : FileInfo) → Keeps P (flush ino fi)
  unfolding flush
  flush-Keeps ino fi =
      search
        (
          resource_keeps, entry_keeps, file_keeps, notify_poll_event-Keeps, fuse_buf_copy-Keeps,
          k.calls, k.at_send,
        )
        depth 12

  pub f_sync-Keeps : (ino : ℕ) (datasync : Bool) (fi : FileInfo) → Keeps P (f_sync ino datasync fi)
  unfolding f_sync
  f_sync-Keeps ino datasync fi =
      search
        (
          resource_keeps, entry_keeps, file_keeps, notify_poll_event-Keeps, fuse_buf_copy-Keeps,
          k.calls, k.at_send,
        )
        depth 12

  pub f_allocate-Keeps : (ino : ℕ) (mode offset len : ℕ) → Keeps P (f_allocate ino mode offset len)
  unfolding f_allocate
  f_allocate-Keeps ino mode offset len =
      search
        (
          resource_keeps, entry_keeps, file_keeps, notify_poll_event-Keeps, fuse_buf_copy-Keeps,
          k.calls, k.at_send,
        )
        depth 12

  pub copy_range-Keeps :
      (ino_in : ℕ) (off_in : ℕ) (ino_out : ℕ) (off_out len flags : ℕ)
      → Keeps P (copy_range ino_in off_in ino_out off_out len flags)
  unfolding copy_range
  copy_range-Keeps ino_in off_in ino_out off_out len flags =
      search
        (
          resource_keeps, entry_keeps, file_keeps, notify_poll_event-Keeps, fuse_buf_copy-Keeps,
          k.calls, k.at_send,
        )
        depth 12

  pub l_seek-Keeps : (ino : ℕ) (off whence : ℕ) → Keeps P (l_seek ino off whence)
  unfolding l_seek
  l_seek-Keeps ino off whence =
      search
        (
          resource_keeps, entry_keeps, file_keeps, notify_poll_event-Keeps, fuse_buf_copy-Keeps,
          k.calls, k.at_send,
        )
        depth 12

pub ruleset file_handler_keeps = (
  open_ino-Keeps, create-Keeps, release_file-Keeps, read-Keeps, write_buf-Keeps, flush-Keeps,
  f_sync-Keeps, f_allocate-Keeps, copy_range-Keeps, l_seek-Keeps,
)
