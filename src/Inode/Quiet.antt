-- ===== src/Inode/Quiet.antt =====
-- What making an inode, reading its generation and destroying it do to the state: nothing.
use pagealignfs.Prelude.Int.{ℤ}
use pagealignfs.Prelude.Bytes.{Text}
use pagealignfs.World.{FileDescriptor, FusePollHandle, Inode}
use pagealignfs.Status.{StatusOr, ok, err}
use pagealignfs.Effect.Fallible.{E}
use pagealignfs.Effect.Returns.{Quiet, Quiet-bind, quiet_rules}
use pagealignfs.Syscalls.Quiet.{
  close-Quiet, open_file-Quiet, openat-Quiet, ioctl-Quiet, fstatat-Quiet,
}
use pagealignfs.Resource.Descriptor
use pagealignfs.Resource.Descriptor.{with_fd, end_scope}
use pagealignfs.Resource.PollHandle
use pagealignfs.Inode
use pagealignfs.Inode.{proc_path, get_file_version_from_path_fd, stat_fd}

pub destroy_fd-Quiet : (fd : FileDescriptor) → Quiet (Descriptor.destroy fd)
unfolding Descriptor.destroy
destroy_fd-Quiet fd = search (quiet_rules, close-Quiet)

pub destroy_poll_handle-Quiet : (h : FusePollHandle) → Quiet (PollHandle.destroy h)
unfolding PollHandle.destroy
destroy_poll_handle-Quiet h = search quiet_rules

module _ {A : Type 0} where
  end_scope-Quiet :
      (fd : FileDescriptor) (r : StatusOr (A × FileDescriptor)) → Quiet (end_scope fd r)
  unfolding end_scope
  end_scope-Quiet fd (ok (a, left)) = search (quiet_rules, destroy_fd-Quiet)
  end_scope-Quiet fd (err st) = search (quiet_rules, destroy_fd-Quiet)

  with_fd-Quiet :
      (fd : FileDescriptor) (body : E (A × FileDescriptor)) → Quiet body → Quiet (with_fd fd body)
  unfolding with_fd
  with_fd-Quiet fd body kb = Quiet-bind body _ kb (end_scope-Quiet fd)

-- The destructor of an inode always returns, and changes nothing of the program's state.
pub destroy_inode-Quiet : (i : Inode) → Quiet (Inode.destroy i)
unfolding Inode.destroy
destroy_inode-Quiet i = search (quiet_rules, destroy_fd-Quiet, destroy_poll_handle-Quiet)

pub stat_fd-Quiet : (fd : ℤ) → Quiet (stat_fd fd)
unfolding stat_fd
stat_fd-Quiet fd = search (quiet_rules, fstatat-Quiet)

-- Create of an inode always returns.
pub create-Quiet : (path : Text) (parent_fd : ℤ) → Quiet (Inode.create path parent_fd)
unfolding Inode.create
create-Quiet path parent_fd =
    search (quiet_rules, openat-Quiet, with_fd-Quiet, stat_fd-Quiet) depth 12

pub version-Quiet : (fd : ℤ) → Quiet (get_file_version_from_path_fd fd)
unfolding get_file_version_from_path_fd proc_path
version-Quiet fd = search (quiet_rules, open_file-Quiet, with_fd-Quiet, ioctl-Quiet) depth 12
