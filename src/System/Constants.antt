-- ===== src/System/Constants.antt =====
-- Numbers of the C headers: third_party/linux-headers/include/asm-generic/errno-base.h, errno.h,
-- fcntl.h and linux/fcntl.h, linux/stat.h, linux/fs.h, and PATH_MAX of linux/limits.h.
use pagealignfs.Prelude.{ℕ, ◌-◌, ◌^◌}
use pagealignfs.Prelude.Int.{ℤ, pos, negsuc}

abbrev pub o_rdonly : ℕ
o_rdonly = 0

abbrev pub o_accmode : ℕ
o_accmode = 3

abbrev pub o_creat : ℕ
o_creat = 0o100

abbrev pub o_directory : ℕ
o_directory = 0o200000

abbrev pub o_nofollow : ℕ
o_nofollow = 0o400000

abbrev pub o_cloexec : ℕ
o_cloexec = 0o2000000

abbrev pub o_path : ℕ
o_path = 0o10000000

-- ~O_NOFOLLOW in 32 bits
abbrev pub not_o_nofollow : ℕ
not_o_nofollow = 2 ^ 32 - 1 - 0o400000

abbrev pub at_fdcwd : ℤ
at_fdcwd = negsuc 99

abbrev pub at_symlink_nofollow : ℕ
at_symlink_nofollow = 0x100

abbrev pub at_removedir : ℕ
at_removedir = 0x200

abbrev pub at_empty_path : ℕ
at_empty_path = 0x1000

abbrev pub f_getlk : ℕ
f_getlk = 5

abbrev pub f_setlk : ℕ
f_setlk = 6

abbrev pub f_setlkw : ℕ
f_setlkw = 7

abbrev pub utime_now : ℤ
utime_now = pos 0x3fff_ffff

abbrev pub utime_omit : ℤ
utime_omit = pos 0x3fff_fffe

abbrev pub fs_ioc_getversion : ℕ
fs_ioc_getversion = 0x8008_7601

abbrev pub path_max : ℕ
path_max = 4096

abbrev pub sig_setmask : ℤ
sig_setmask = pos 2

-- POLLIN | POLLPRI | POLLOUT | POLLRDHUP | POLLERR | POLLHUP | POLLNVAL
abbrev pub poll_events : ℕ
poll_events = 0x203f

abbrev pub fuse_root_id : ℕ
fuse_root_id = 1

abbrev pub einval : ℤ
einval = pos 22

abbrev pub enametoolong : ℤ
enametoolong = pos 36

abbrev pub ecomm : ℤ
ecomm = pos 70
