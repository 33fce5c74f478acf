-- ===== src/Fs/Keeps.antt =====
-- An invariant that the calls, the replies and the operations on inodes, the cache and directories
-- keep is kept by every handler: the interface, and the helpers that the handlers share.
pub mod Framed
pub mod Entries
pub mod Names
pub mod Attrs
pub mod Files
pub mod Locks
pub mod XAttrs
pub mod Streams
use pagealignfs.Prelude.{ℕ, Bool, true, false, Option, none, some}
use pagealignfs.Prelude.Int.{ℤ}
use pagealignfs.Prelude.Bytes.{Text}
use pagealignfs.System.Types.{EntryParam, Bufvec}
use pagealignfs.System.Calls.{Reply}
use pagealignfs.World.{World, Inode, Entry, FileDescriptor, FusePollHandle, Directory}
use pagealignfs.Status.{StatusOr, ok, err}
use pagealignfs.Effect
use pagealignfs.Effect.{M}
use pagealignfs.Effect.Fallible.{E}
use pagealignfs.Effect.Keeps.{Keeps, Keeps-bind, keeps_rules}
use pagealignfs.Syscalls.Keeps.{CallsKeep, syscall_rules}
use pagealignfs.Syscalls.Keeps.Files.{file_keeps}
use pagealignfs.Syscalls.Keeps.Tree.{tree_keeps}
use pagealignfs.Syscalls.Keeps.Streams.{stream_keeps}
use pagealignfs.Resource.Descriptor
use pagealignfs.Resource.Descriptor.{with_fd, end_scope}
use pagealignfs.Resource.PollHandle
use pagealignfs.Resource.Stream
use pagealignfs.Inode
use pagealignfs.Inode.{
  get_inode, proc_path, stat_fd, get_generation, add_poll_handle, notify_poll_event,
}
use pagealignfs.InodeCache.{insert, ref, unref, with_shared}
use pagealignfs.Request.{send}
use pagealignfs.Request.DirsBuilder.{FuseDirsBuilder, add_dir_entry, fuse_buf_copy}
use pagealignfs.Request.DirsBuilder
use pagealignfs.Fs.Streams.{new_directory, delete_directory}

pub record StateKeeps (P : World → Type 0) : Type 0 where
  pub calls : CallsKeep P
  pub at_send : (r : Reply) (name : Text) → Keeps P (send r name)
  pub at_insert : (i : Inode) → Keeps P (insert i)
  pub at_new_directory : (d : Directory) → Keeps P (new_directory d)
  pub at_delete_directory : (fh : ℕ) → Keeps P (delete_directory fh)
  pub at_ref : (ino ntimes : ℕ) → Keeps P (ref ino ntimes)
  pub at_unref : (ino ntimes : ℕ) → Keeps P (unref ino ntimes)
  pub at_get_generation : (ino : ℕ) → Keeps P (get_generation ino)
  pub at_add_poll_handle : (ino : ℕ) (h : FusePollHandle) → Keeps P (add_poll_handle ino h)

module _ {P : World → Type 0} where
  or_fault-Keeps : (o : Option Entry) → Keeps P (Inode.or_fault o)
  unfolding Inode.or_fault
  or_fault-Keeps none = search keeps_rules
  or_fault-Keeps (some x) = search keeps_rules

  pub get_inode-Keeps : (ino : ℕ) → Keeps P (get_inode ino)
  unfolding get_inode
  get_inode-Keeps ino = search (keeps_rules, or_fault-Keeps)

  pub proc_path-Keeps : (fd : ℤ) → Keeps P (proc_path fd)
  unfolding proc_path
  proc_path-Keeps fd = search keeps_rules

module _ {P : World → Type 0} (k : CallsKeep P) where
  pub destroy_fd-Keeps : (fd : FileDescriptor) → Keeps P (Descriptor.destroy fd)
  unfolding Descriptor.destroy
  destroy_fd-Keeps fd = search (keeps_rules, file_keeps)

  pub destroy_poll_handle-Keeps : (h : FusePollHandle) → Keeps P (PollHandle.destroy h)
  unfolding PollHandle.destroy
  destroy_poll_handle-Keeps h = search (keeps_rules, k.at_call)

  pub destroy_inode-Keeps : (i : Inode) → Keeps P (Inode.destroy i)
  unfolding Inode.destroy
  destroy_inode-Keeps i = search (keeps_rules, destroy_fd-Keeps, destroy_poll_handle-Keeps)

  pub destroy_stream-Keeps : (d : Directory) → Keeps P (Stream.destroy d)
  unfolding Stream.destroy
  destroy_stream-Keeps d = search (keeps_rules, stream_keeps)

  end_scope-Keeps :
      {A : Type 0} (fd : FileDescriptor) (r : StatusOr (A × FileDescriptor))
      → Keeps P (end_scope fd r)
  unfolding end_scope
  end_scope-Keeps fd (ok (a, left)) = search (keeps_rules, destroy_fd-Keeps)
  end_scope-Keeps fd (err st) = search (keeps_rules, destroy_fd-Keeps)

  pub with_fd-Keeps :
      {A : Type 0} (fd : FileDescriptor) (body : E (A × FileDescriptor))
      → Keeps P body
      → Keeps P (with_fd fd body)
  unfolding with_fd
  with_fd-Keeps fd body kb = Keeps-bind body (end_scope fd) kb (end_scope-Keeps fd)

  pub stat_fd-Keeps : (fd : ℤ) → Keeps P (stat_fd fd)
  unfolding stat_fd
  stat_fd-Keeps fd = search (keeps_rules, tree_keeps)

  pub stat-Keeps : (ino : ℕ) → Keeps P (Inode.stat ino)
  unfolding Inode.stat
  stat-Keeps ino = search (keeps_rules, get_inode-Keeps, stat_fd-Keeps)

  pub create_inode-Keeps : (path : Text) (parent_fd : ℤ) → Keeps P (Inode.create path parent_fd)
  unfolding Inode.create
  create_inode-Keeps path parent_fd = search (keeps_rules, file_keeps, with_fd-Keeps, stat_fd-Keeps)

  notify-Keeps : (h : FusePollHandle) → Keeps P (PollHandle.notify h)
  unfolding PollHandle.notify
  notify-Keeps h = search (syscall_rules, k.at_call)

  pub notify_poll_event-Keeps : (ino : ℕ) → Keeps P (notify_poll_event ino)
  unfolding notify_poll_event
  notify_poll_event-Keeps ino = search (keeps_rules, get_inode-Keeps, notify-Keeps)

  pub create_stream-Keeps : (fd : FileDescriptor) → Keeps P (Stream.create fd)
  unfolding Stream.create
  create_stream-Keeps fd = search (keeps_rules, stream_keeps)

  pub fuse_buf_copy-Keeps : (dst src : Bufvec) (flags : ℕ) → Keeps P (fuse_buf_copy dst src flags)
  unfolding fuse_buf_copy
  fuse_buf_copy-Keeps dst src flags = search (syscall_rules, k.at_call)

  add_direntry_to-Keeps :
      (b : FuseDirsBuilder) (name : Text) (param : EntryParam) (offset size : ℕ) (req : Option ℕ)
      → Keeps P (DirsBuilder.add_direntry_to b name param offset size req)
  unfolding DirsBuilder.add_direntry_to
  add_direntry_to-Keeps b name param offset size none = search keeps_rules
  add_direntry_to-Keeps b name param offset size (some req) = search (keeps_rules, k.at_call)

  add_direntry-Keeps :
      (b : FuseDirsBuilder) (name : Text) (param : EntryParam) (offset size : ℕ)
      → Keeps P (DirsBuilder.add_direntry b name param offset size)
  unfolding DirsBuilder.add_direntry
  add_direntry-Keeps b name param offset size = search (keeps_rules, add_direntry_to-Keeps)

  pub add_dir_entry-Keeps :
      (b : FuseDirsBuilder) (name : Text) (param : EntryParam) (offset : ℕ)
      → Keeps P (add_dir_entry b name param offset)
  unfolding add_dir_entry
  add_dir_entry-Keeps b name param offset = search (keeps_rules, add_direntry-Keeps)

pub ruleset resource_keeps = (
  keeps_rules, get_inode-Keeps, proc_path-Keeps, with_fd-Keeps, stat_fd-Keeps, stat-Keeps,
  create_inode-Keeps, destroy_inode-Keeps,
)
