-- ===== src/Request/Codes.antt =====
-- StatusCodeToErrno of pafs/fuse.cc.
use pagealignfs.Prelude.Int.{ℤ, pos}
use pagealignfs.System.Types.{StatusCode}

-- EINVAL, ETIMEDOUT, ENOENT, EEXIST, EPERM, ERANGE, EBUSY, ENOSPC, ECANCELED, EDEADLK, ENOSYS,
-- EAGAIN, ENOTRECOVERABLE, ELIBBAD and EPROTO
unfoldable pub status_code_to_errno : StatusCode → ℤ
status_code_to_errno StatusCode.k_ok = pos 0
status_code_to_errno StatusCode.k_invalid_argument = pos 22
status_code_to_errno StatusCode.k_deadline_exceeded = pos 110
status_code_to_errno StatusCode.k_not_found = pos 2
status_code_to_errno StatusCode.k_already_exists = pos 17
status_code_to_errno StatusCode.k_permission_denied = pos 1
status_code_to_errno StatusCode.k_unauthenticated = pos 1
status_code_to_errno StatusCode.k_out_of_range = pos 34
status_code_to_errno StatusCode.k_failed_precondition = pos 16
status_code_to_errno StatusCode.k_resource_exhausted = pos 28
status_code_to_errno StatusCode.k_cancelled = pos 125
status_code_to_errno StatusCode.k_aborted = pos 35
status_code_to_errno StatusCode.k_unimplemented = pos 38
status_code_to_errno StatusCode.k_unavailable = pos 11
status_code_to_errno StatusCode.k_data_loss = pos 131
status_code_to_errno StatusCode.k_internal = pos 80
status_code_to_errno StatusCode.k_unknown = pos 71
