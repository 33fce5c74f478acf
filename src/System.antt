-- ===== src/System.antt =====
-- What lies outside the repository, as the program meets it: the C library and the kernel
-- (pafs/syscalls.cc calls them), libfuse (pafs/fuse.cc) and the functions of absl. They are the
-- fields of `Env`, a parameter of every definition: what a call answers may depend on all that
-- happened before it. The structures that are passed to them stand in the child `Types`, the calls
-- in `Calls`, and the numbers of the C headers in `Constants`.
pub mod Types
pub mod Calls
pub mod Constants
use pagealignfs.Prelude.{ℕ, List, Option}
use pagealignfs.Prelude.Int.{ℤ}
use pagealignfs.Prelude.Bytes.{Text}
use pagealignfs.System.Types.{Status, Stat, Dirent}
use pagealignfs.System.Calls.{Call}

-- What a call gives back: its return value, `errno` after it (0 where it was set to 0 before and
-- the call left it), and what it writes through its pointers.
pub record Answer : Type 0 where
  pub rc : ℤ
  pub errno : ℤ
  pub bytes : Text
  pub stat : Stat
  pub entry : Option Dirent
  pub number : ℕ

pub record Event : Type 0 where
  pub call : Call
  pub answer : Answer

-- The trace is kept newest first.
pub record Env : Type 0 where
  -- the kernel, the C library and libfuse
  pub answer : List Event → Call → Answer
  pub strerrorname_np : ℤ → Option Text
  -- absl::StrCat of texts and of a number, absl::StrFormat with one "%d", absl::SimpleAtoi
  pub str_cat : List Text → Text
  pub decimal : ℤ → Text
  pub str_format : Text → ℤ → Text
  pub simple_atoi : Text → Option ℤ
  -- absl::ConsumePrefix and ConsumeSuffix, with what is left of the text
  pub consume_prefix : Text → Text → Option Text
  pub consume_suffix : Text → Text → Option Text
  -- absl::ErrnoToStatus, absl::Status::SetPayload and GetPayload
  pub errno_to_status : ℤ → Text → Status
  pub set_payload : Status → Text → Text → Status
  pub get_payload : Status → Text → Option Text
  -- absl::ToInt64Milliseconds
  pub to_int64_milliseconds : ℤ → ℤ
