-- ===== src/Status/Laws.antt =====
-- What the code relies on of absl's statuses and texts, and of strerrorname_np.
use pagealignfs.Prelude.{◌≡◌, ◌≢◌, ◌++◌, none, some, []}
use pagealignfs.Prelude.Int.{ℤ, IsInt}
use pagealignfs.Prelude.Bytes.{Text, text}
use pagealignfs.System.{Env}
use pagealignfs.System.Types.{Status, StatusCode}

pub record StatusLaws (e : Env) : Type 0 where
  -- SetPayload keeps the code, and GetPayload finds what was set; an OK status has no payload.
  pub code-set_payload : (st : Status) (url v : Text) → (e.set_payload st url v).code ≡ st.code
  pub get_payload-set_payload :
      (st : Status) (url v : Text)
      → st.code ≢ StatusCode.k_ok
      → e.get_payload (e.set_payload st url v) url ≡ some v
  pub get_payload-nil : (st : Status) (url : Text) → st.payloads ≡ [] → e.get_payload st url ≡ none
  -- "%d" writes the number in decimal, and SimpleAtoi reads it back where it fits an int.
  pub str_format-unknown :
      (n : ℤ)
      → IsInt n
      → e.str_format (text "UNKNOWN (%d)") n ≡ text "UNKNOWN (" ++ (e.decimal n ++ text ")")
  pub simple_atoi-decimal : (n : ℤ) → IsInt n → e.simple_atoi (e.decimal n) ≡ some n
  pub consume_prefix-append : (p s : Text) → e.consume_prefix p (p ++ s) ≡ some s
  pub consume_suffix-append : (p s : Text) → e.consume_suffix p (s ++ p) ≡ some s
  -- The name of an errno does not look like the text for one that has no name.
  pub strerrorname_np-known :
      (n : ℤ) (name : Text)
      → e.strerrorname_np n ≡ some name
      → e.consume_prefix (text "UNKNOWN (") name ≡ none
