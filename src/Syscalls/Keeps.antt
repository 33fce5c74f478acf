-- ===== src/Syscalls/Keeps.antt =====
-- The wrappers of the system calls keep every invariant that the calls themselves keep.
pub mod Files
pub mod Tree
pub mod Streams
use pagealignfs.Prelude.{Bool, true, false, ◌≡◌}
use pagealignfs.Prelude.Int.{ℤ}
use pagealignfs.Prelude.Bytes.{Text}
use pagealignfs.System.{Answer}
use pagealignfs.System.Calls.{Call}
use pagealignfs.World.{World}
use pagealignfs.Effect.{call}
use pagealignfs.Effect.Keeps.{Keeps, keeps_rules}
use pagealignfs.Syscalls.Errors.{errno_result, errno_fail, check, checked_value}

abbrev pub is_reply : Call → Bool
is_reply (Call.fuse_reply req r) = true
is_reply _ = false

abbrev pub is_session : Call → Bool
is_session (Call.session c) = true
is_session _ = false

-- The calls of the handlers, but for replies, keep `P`.
pub record CallsKeep (P : World → Type 0) : Type 0 where
  pub at_call : (c : Call) → is_reply c ≡ false → is_session c ≡ false → Keeps P (call c)

module _ {P : World → Type 0} where
  pub errno_result-Keeps : (n : ℤ) (name : Text) → Keeps P (errno_result n name)
  unfolding errno_result
  errno_result-Keeps n name = search keeps_rules

  pub errno_fail-Keeps : {A : Type 0} (n : ℤ) (name : Text) → Keeps P (errno_fail {A = A} n name)
  unfolding errno_fail
  errno_fail-Keeps n name = search keeps_rules

  pub check-Keeps : (a : Answer) (name : Text) → Keeps P (check a name)
  unfolding check
  check-Keeps a name = search (keeps_rules, errno_result-Keeps)

  pub checked_value-Keeps :
      {A : Type 0} (a : Answer) (name : Text) (v : A) → Keeps P (checked_value a name v)
  unfolding checked_value
  checked_value-Keeps a name v = search (keeps_rules, errno_fail-Keeps)

pub ruleset syscall_rules =
    (keeps_rules, errno_result-Keeps, errno_fail-Keeps, check-Keeps, checked_value-Keeps)
