-- ===== src/Status.antt =====
-- pafs/status.h, pafs/status.cc and pafs/errno.cc: errors as values, and the errno that a status
-- carries in a payload.
pub mod Names
pub mod Laws
pub mod RoundTrip
use pagealignfs.Prelude.{Bool, true, false, List, [], ◌∷◌, Option, none, some, if◌then◌else◌}
use pagealignfs.Prelude.Int.{ℤ, pos, eqb_ℤ}
use pagealignfs.Prelude.Bytes.{Text, text}
use pagealignfs.System.{Env}
use pagealignfs.System.Types.{Status, StatusCode}
use pagealignfs.Status.Names.{names_to_errors, find}

-- absl::StatusOr<A>. An absl::Status that a function returns is a `StatusOr Unit`.
pub data StatusOr (A : Type 0) : Type 0 where
  ok : A → StatusOr A
  err : Status → StatusOr A

abbrev pub is_ok : StatusCode → Bool
is_ok StatusCode.k_ok = true
is_ok _ = false

abbrev pub failure : StatusCode → Text → Status
failure code message = record { code = code; message = message; payloads = [] }

-- `return st` in a function that returns absl::Status
abbrev pub to_result : Status → StatusOr (Unit {0})
to_result st = if is_ok st.code then ok tt else err st

-- `return st` in a function that returns absl::StatusOr: an OK status is replaced by kInternal
abbrev pub of_status : {A : Type 0} → Status → StatusOr A
of_status st =
    if is_ok st.code
    then err
        (failure StatusCode.k_internal (text "An OK status is not a valid constructor argument"))
    else err st

abbrev pub errno_type_url : Text
errno_type_url = text "rus.har.mn/pafs/status/errno"

set_payloads : Env → List (Text × Text) → Status → Status
set_payloads e [] to = to
set_payloads e ((url, payload) ∷ rest) to = set_payloads e rest (e.set_payload to url payload)

-- The parameter `to` is a copy: what it holds at the end is the function's own.
unfoldable pub copy_payload : Env → Status → Status → Status
unfolding set_payloads
copy_payload e from to = set_payloads e from.payloads to

unfoldable pub prepend : Env → Status → Text → Text → Status
unfolding copy_payload
prepend e st message joiner =
    let new_status = failure st.code (e.str_cat (message ∷ joiner ∷ st.message ∷ [])) in
    let to = copy_payload e st new_status in new_status

unfoldable pub append : Env → Status → Text → Text → Status
unfolding copy_payload
append e st message joiner =
    let new_status = failure st.code (e.str_cat (st.message ∷ joiner ∷ message ∷ [])) in
    let to = copy_payload e st new_status in new_status

name_or_unknown : Env → ℤ → Option Text → Text
name_or_unknown e error_number none = e.str_format (text "UNKNOWN (%d)") error_number
name_or_unknown e error_number (some n) = n

unfoldable pub errno_to_error_name : Env → ℤ → Text
unfolding name_or_unknown
errno_to_error_name e error_number =
    if eqb_ℤ error_number (pos 0)
    then text "OK"
    else name_or_unknown e error_number (e.strerrorname_np error_number)

bind_option : Option Text → (Text → Option ℤ) → Option ℤ
bind_option none f = none
bind_option (some t) f = f t

-- The number between "UNKNOWN (" and ")", if the text has that form.
unfoldable pub unknown_errno : Env → Text → Option ℤ
unfolding bind_option
unknown_errno e name =
    bind_option (e.consume_prefix (text "UNKNOWN (") name)
      λ rest. bind_option (e.consume_suffix (text ")") rest) e.simple_atoi

or_not_found : Option ℤ → StatusOr ℤ
or_not_found none = err (failure StatusCode.k_not_found (text "No such errno for "))
or_not_found (some n) = ok n

or_look_up : Text → Option ℤ → StatusOr ℤ
unfolding or_not_found
or_look_up name (some n) = ok n
or_look_up name none = or_not_found (find name names_to_errors)

unfoldable pub error_name_to_errno : Env → Text → StatusOr ℤ
unfolding or_look_up unknown_errno
error_name_to_errno e name = or_look_up name (unknown_errno e name)

unfoldable pub errno_to_status : Env → ℤ → Text → Status
errno_to_status e error_number message =
    e.set_payload (e.errno_to_status error_number message) errno_type_url
      (errno_to_error_name e error_number)

or_no_payload : Env → Option Text → StatusOr ℤ
or_no_payload e none = err (failure StatusCode.k_not_found (text "No payload"))
or_no_payload e (some payload) = error_name_to_errno e payload

unfoldable pub get_errno_from_status : Env → Status → StatusOr ℤ
unfolding or_no_payload
get_errno_from_status e status = or_no_payload e (e.get_payload status errno_type_url)
