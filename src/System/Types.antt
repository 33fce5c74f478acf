-- ===== src/System/Types.antt =====
-- The structures that the program passes to the kernel, to libfuse and to absl, with the fields
-- that it reads or sets. The rest of a structure is one number, which is only passed on.
use pagealignfs.Prelude.{ℕ, Bool, List, ◌==◌, ◌/◌, ◌%◌, ◌^◌}
use pagealignfs.Prelude.Int.{ℤ}
use pagealignfs.Prelude.Bytes.{Text}

-- absl::StatusCode
pub data StatusCode : Type 0 where
  k_ok k_cancelled k_unknown k_invalid_argument k_deadline_exceeded k_not_found : StatusCode
  k_already_exists k_permission_denied k_resource_exhausted k_failed_precondition : StatusCode
  k_aborted k_out_of_range k_unimplemented k_internal k_unavailable k_data_loss : StatusCode
  k_unauthenticated : StatusCode

-- absl::Status by what `code`, `message` and `ForEachPayload` read.
pub record Status : Type 0 where
  pub code : StatusCode
  pub message : Text
  pub payloads : List (Text × Text)

-- struct stat
pub record Stat : Type 0 where
  pub st_dev : ℕ
  pub st_ino : ℕ
  pub st_mode : ℕ
  pub st_uid : ℕ
  pub st_gid : ℕ
  pub st_size : ℕ
  pub st_atim : ℕ × ℤ
  pub st_mtim : ℕ × ℤ
  pub others : ℕ

-- S_ISDIR
abbrev pub s_isdir : ℕ → Bool
s_isdir mode = mode / 2 ^ 12 % 2 ^ 4 == 4

-- struct dirent
pub record Dirent : Type 0 where
  pub d_name : Text
  pub d_off : ℕ

-- struct fuse_file_info
pub record FileInfo : Type 0 where
  pub flags : ℕ
  pub fh : ℕ
  pub noflush : Bool
  pub parallel_direct_writes : Bool
  pub others : ℕ

-- struct fuse_entry_param. The time-outs are those whose seconds the program passes.
pub record EntryParam : Type 0 where
  pub ino : ℕ
  pub generation : ℕ
  pub attr : Stat
  pub attr_timeout : ℤ
  pub entry_timeout : ℤ

-- struct fuse_bufvec with one buffer: memory is told from a descriptor by the flag.
pub record Bufvec : Type 0 where
  pub size : ℕ
  pub is_fd_seek : Bool
  pub fd : ℤ
  pub pos : ℕ
  pub bytes : Text

-- struct flock
pub record Flock : Type 0 where
  pub l_type : ℕ
  pub others : ℕ

-- The bits FUSE_SET_ATTR_… of `to_set`, one field for each that the program tests.
pub record ToSet : Type 0 where
  pub mode : Bool
  pub uid : Bool
  pub gid : Bool
  pub size : Bool
  pub atime : Bool
  pub mtime : Bool
  pub atime_now : Bool
  pub mtime_now : Bool

-- struct fuse_forget_data
pub record ForgetData : Type 0 where
  pub ino : ℕ
  pub nlookup : ℕ
