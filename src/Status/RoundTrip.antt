-- ===== src/Status/RoundTrip.antt =====
-- The errno that a status was made from is read back.
use pagealignfs.Prelude.{◌≡◌, ◌≢◌, refl, false, ◌⊎◌, inl, inr, none, some, ◌++◌, arith, map}
use pagealignfs.Prelude.Int.{ℤ, pos, eqb_ℤ_iff, IsInt}
use pagealignfs.Prelude.Bytes.{Text, text, eqb}
use pagealignfs.System.{Env}
use pagealignfs.System.Types.{Status, StatusCode}
use pagealignfs.Status.Names.{names_to_errors, find}
use pagealignfs.Status.Laws.{StatusLaws}
use pagealignfs.Status.{
  ok, err, is_ok, failure, errno_to_error_name, error_name_to_errno, errno_to_status, prepend,
  append, get_errno_from_status, unknown_errno, errno_type_url,
}

-- The errno has no name in the C library, or it has one that the table lists with this number.
abbrev pub IsRecoverable : Env → ℤ → Type 0
IsRecoverable e n =
    (e.strerrorname_np n ≡ none)
    ⊎ ((name : Text) × (e.strerrorname_np n ≡ some name) × (find name names_to_errors ≡ some n))

pub is_ok-false : (c : StatusCode) → c ≢ StatusCode.k_ok → is_ok c ≡ false
is_ok-false StatusCode.k_ok h = ground (arith, h refl)
is_ok-false _ h = refl

module _ {e : Env} (l : StatusLaws e) where
  unknown_errno-unknown :
      (n : ℤ) → IsInt n → unknown_errno e (e.str_format (text "UNKNOWN (%d)") n) ≡ some n
  unfolding unknown_errno
  unknown_errno-unknown n int =
      rw
        (
          l.str_format-unknown n int,
          l.consume_prefix-append (text "UNKNOWN (") (e.decimal n ++ text ")"),
          l.consume_suffix-append (text ")") (e.decimal n),
        )
        (l.simple_atoi-decimal n int)

  unknown_errno-known :
      (n : ℤ) (name : Text) → e.strerrorname_np n ≡ some name → unknown_errno e name ≡ none
  unfolding unknown_errno
  unknown_errno-known n name h = rw (l.strerrorname_np-known n name h)

  -- The payload of a failing status is the name of its errno.
  get_errno-errno_to_status :
      (n : ℤ) (message : Text)
      → (e.errno_to_status n message).code ≢ StatusCode.k_ok
      → get_errno_from_status e (errno_to_status e n message)
        ≡ error_name_to_errno e (errno_to_error_name e n)
  unfolding get_errno_from_status errno_to_status
  get_errno-errno_to_status n message h = rw (
      l.get_payload-set_payload (e.errno_to_status n message) errno_type_url
        (errno_to_error_name e n) h)

  name-unnamed :
      (n : ℤ)
      → n ≢ pos 0
      → e.strerrorname_np n ≡ none
      → errno_to_error_name e n ≡ e.str_format (text "UNKNOWN (%d)") n
  unfolding errno_to_error_name
  name-unnamed n nonzero unnamed = ground (arith, eqb_ℤ_iff n (pos 0))

  name-named :
      (n : ℤ) (name : Text)
      → n ≢ pos 0
      → e.strerrorname_np n ≡ some name
      → errno_to_error_name e n ≡ name
  unfolding errno_to_error_name
  name-named n name nonzero named = ground (arith, eqb_ℤ_iff n (pos 0))

  -- An errno that is not 0 and fits an int survives the way into a failing status and back, if it
  -- has no name in the C library or one that the table lists with this number.
  pub errno_round_trip :
      (n : ℤ) (message : Text)
      → (e.errno_to_status n message).code ≢ StatusCode.k_ok
      → n ≢ pos 0
      → IsInt n
      → IsRecoverable e n
      → get_errno_from_status e (errno_to_status e n message) ≡ ok n
  unfolding error_name_to_errno
  errno_round_trip n message h nonzero int (inl unnamed) = rw (
    get_errno-errno_to_status n message h,
    name-unnamed n nonzero unnamed,
    unknown_errno-unknown n int,
  )
  errno_round_trip n message h nonzero int (inr (name, named, listed)) = rw (
    get_errno-errno_to_status n message h,
    name-named n name nonzero named,
    unknown_errno-known n name named,
    listed,
  )

  -- An errno whose name the table does not list is not read back: the caller gets kNotFound.
  pub errno_not_listed :
      (n : ℤ) (message name : Text)
      → (e.errno_to_status n message).code ≢ StatusCode.k_ok
      → n ≢ pos 0
      → e.strerrorname_np n ≡ some name
      → find name names_to_errors ≡ none
      → get_errno_from_status e (errno_to_status e n message)
        ≡ err (failure StatusCode.k_not_found (text "No such errno for "))
  unfolding error_name_to_errno
  errno_not_listed n message name h nonzero named missing = rw (
    get_errno-errno_to_status n message h,
    name-named n name nonzero named,
    unknown_errno-known n name named,
    missing,
  )

  -- A status that Prepend or Append made carries no errno, whatever its argument carried.
  pub errno_lost :
      (st : Status) (message joiner : Text)
      → (get_errno_from_status e (prepend e st message joiner)
          ≡ err (failure StatusCode.k_not_found (text "No payload")))
        × (get_errno_from_status e (append e st message joiner)
            ≡ err (failure StatusCode.k_not_found (text "No payload")))
  unfolding get_errno_from_status prepend append
  errno_lost st message joiner = (
    rw (l.get_payload-nil (prepend e st message joiner) errno_type_url refl),
    rw (l.get_payload-nil (append e st message joiner) errno_type_url refl),
  )

-- Every row of the table is found under its own name.
names_to_errors-found :
    map (λ row. find row.0 names_to_errors) names_to_errors
    ≡ map (λ row. some row.1) names_to_errors
unfolding names_to_errors find eqb
names_to_errors-found = refl
