-- ===== src/Inode.antt =====
-- class Inode of pafs/inode.h and pafs/inode.cc. An Inode is referred to by its `fuse_ino_t`: the
-- root by FUSE_ROOT_ID, a cached one by its address (GetInode of pafs/page_align_fs.cc).
pub mod Quiet
use pagealignfs.Prelude.{ℕ, List, [], ◌∷◌, Option, none, some, ◌==◌, bit_or, if◌then◌else◌}
use pagealignfs.Prelude.Int.{ℤ}
use pagealignfs.Prelude.Bytes.{Text, text}
use pagealignfs.System.Types.{Stat}
use pagealignfs.System.Constants.{
  fuse_root_id, o_path, o_nofollow, o_cloexec, o_rdonly, at_empty_path, at_symlink_nofollow,
  fs_ioc_getversion,
}
use pagealignfs.World.{Inode, Entry, FusePollHandle}
use pagealignfs.Status.{StatusOr}
use pagealignfs.Effect
use pagealignfs.Effect.{M, gets, asks, modify, fault}
use pagealignfs.Effect.Fallible.{E, pure, return, lift, attempt, ◌>>=◌, ◌>>◌}
use pagealignfs.Syscalls.Files.{open_file, openat, ioctl}
use pagealignfs.Syscalls.Tree.{fstatat}
use pagealignfs.Resource.Descriptor
use pagealignfs.Resource.Descriptor.{with_fd, move_construct}
use pagealignfs.Resource.PollHandle

unfoldable pub entry_at : ℕ → List Entry → Option Entry
entry_at p [] = none
entry_at p (x ∷ xs) = if x.address == p then some x else entry_at p xs

unfoldable pub or_fault : Option Entry → M Inode
or_fault none = fault
or_fault (some x) = Effect.pure x.inode

-- PageAlignFS::GetInode, and the object that the reference leads to
unfoldable pub get_inode : ℕ → M Inode
unfolding or_fault entry_at
get_inode ino =
    if ino == fuse_root_id
    then gets (λ w. w.root)
    else Effect.◌>>=◌ (gets (λ w. entry_at ino w.inodes)) or_fault

unfoldable pub set_at : ℕ → Inode → List Entry → List Entry
set_at p i [] = []
set_at p i (x ∷ xs) = if x.address == p then record x { inode = i } ∷ xs else x ∷ set_at p i xs

-- a write to the object behind the reference
unfoldable pub set_inode : ℕ → Inode → M (Unit {0})
unfolding set_at
set_inode ino i =
    if ino == fuse_root_id
    then modify (λ w. record w { root = i })
    else modify (λ w. record w { inodes = set_at ino i w.inodes })

-- GetFD
abbrev pub get_fd : Inode → ℤ
get_fd i = i.fd.fd

-- absl::StrCat("/proc/self/fd/", fd)
unfoldable pub proc_path : ℤ → M Text
proc_path fd = asks λ e. e.str_cat (text "/proc/self/fd/" ∷ e.decimal fd ∷ [])

unfoldable pub get_file_version_from_path_fd : ℤ → E ℕ
unfolding open_file ioctl with_fd proc_path
get_file_version_from_path_fd fd = do
  path ← lift (proc_path fd)
  myfd ← open_file path (bit_or o_rdonly o_cloexec) 0
  with_fd myfd (do a ← ioctl myfd.fd fs_ioc_getversion; pure (a.number, myfd))

unfoldable pub stat_fd : ℤ → E Stat
unfolding fstatat
stat_fd fd = fstatat fd [] (bit_or at_empty_path at_symlink_nofollow)

-- Inode::Stat
unfoldable pub stat : ℕ → E Stat
unfolding get_inode stat_fd
stat ino = do i ← lift (get_inode ino); stat_fd (get_fd i)

-- Inode::Create
unfoldable pub create : Text → ℤ → E Inode
unfolding openat with_fd stat_fd move_construct
create path parent_fd = do
  fd ← openat parent_fd path (bit_or (bit_or o_path o_nofollow) o_cloexec) 0
  with_fd fd (do
    st ← stat_fd fd.fd
    let (moved, left) = move_construct fd
    pure (
      record {
        fd = moved;
        num = st.st_ino;
        src_dev_num = st.st_dev;
        generation = none;
        poll_handle = PollHandle.empty;
      },
      left,
    ))

-- the first answer, a failure too, is kept in the inode
unfoldable pub generation_or_read : ℕ → Inode → Option (StatusOr ℕ) → E ℕ
unfolding get_file_version_from_path_fd set_inode
generation_or_read ino i (some r) = return r
generation_or_read ino i none = do
  r ← attempt (get_file_version_from_path_fd (get_fd i))
  lift (set_inode ino (record i { generation = some r }))
  return r

-- Inode::GetGeneration
unfoldable pub get_generation : ℕ → E ℕ
unfolding generation_or_read get_inode
get_generation ino = do i ← lift (get_inode ino); generation_or_read ino i i.generation

-- The old handle is swapped into the parameter and destroyed with it; a null handle is ignored.
unfoldable pub add_poll_handle : ℕ → FusePollHandle → M (Unit {0})
unfolding get_inode set_inode PollHandle.destroy PollHandle.move_assign Effect.◌>>=◌
add_poll_handle ino handle =
    if PollHandle.is_set handle
    then Effect.◌>>=◌ (get_inode ino) (λ i.
      let (new, old) = PollHandle.move_assign i.poll_handle handle in
      Effect.◌>>◌ (set_inode ino (record i { poll_handle = new })) (PollHandle.destroy old))
    else PollHandle.destroy handle

-- Inode::NotifyPollEvent
unfoldable pub notify_poll_event : ℕ → E (Unit {0})
unfolding get_inode PollHandle.notify
notify_poll_event ino = do
  i ← lift (get_inode ino)
  if PollHandle.is_set i.poll_handle then PollHandle.notify i.poll_handle else pure tt

-- ~Inode: the members in the reverse order of their declaration
unfoldable pub destroy : Inode → M (Unit {0})
unfolding PollHandle.destroy Descriptor.destroy
destroy i = Effect.◌>>◌ (PollHandle.destroy i.poll_handle) (Descriptor.destroy i.fd)
