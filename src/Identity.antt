-- ===== src/Identity.antt =====
-- client.go, protocol.go and httpclient/operation_name.go: the names that reach telemetry.
pub mod Grammar
use clientkit.Prelude.{
  ℕ, ◌≡◌, Bool, ◌&&◌, ◌||◌, not, List, [], ◌∷◌, Option, none, some, ◌==◌, nat_eq, ltb, leb, every,
  length, if◌then◌else◌,
}
use mathlib.Core.List.{reverse}
use clientkit.Text.{Text, text_eq, codes, contains_dots}
use clientkit.Text.Trim.{trim_space}

pub data NameError : Type 0 where
  required : NameError
  surrounding_whitespace : NameError
  too_long : NameError
  invalid : NameError

abbrev pub max_client_name_bytes : ℕ
max_client_name_bytes = 64

abbrev pub max_client_protocol_bytes : ℕ
max_client_protocol_bytes = 32

abbrev pub max_operation_name_bytes : ℕ
max_operation_name_bytes = 64

unfoldable pub client_name_alphanumeric : ℕ → Bool
client_name_alphanumeric value =
    (leb b'a' value && leb value b'z') || (leb b'0' value && leb value b'9')

-- name[0] and name[len(name)-1], read only where the name is not empty.
abbrev pub first_byte : Text → ℕ
first_byte [] = 0
first_byte (c ∷ s) = c

abbrev pub last_byte : Text → ℕ
last_byte s = first_byte (reverse s)

unfoldable pub client_name_byte : ℕ → Bool
client_name_byte value =
    client_name_alphanumeric value || value == b'-' || value == b'_' || value == b'.'

unfoldable pub validate_client_name : Text → Option NameError
validate_client_name name =
    if name == []
    then some required
    else if not (trim_space name == name)
    then some surrounding_whitespace
    else if ltb max_client_name_bytes (length name)
    then some too_long
    else if contains_dots name
        || not (client_name_alphanumeric (first_byte name))
        || not (client_name_alphanumeric (last_byte name))
    then some invalid
    else if every client_name_byte name
    then none
    else some invalid

unfoldable pub validate_client_protocol : Text → Option NameError
validate_client_protocol protocol =
    if protocol == []
    then some required
    else if not (trim_space protocol == protocol)
    then some surrounding_whitespace
    else if ltb max_client_protocol_bytes (length protocol)
    then some too_long
    else if contains_dots protocol
        || not (client_name_alphanumeric (first_byte protocol))
        || not (client_name_alphanumeric (last_byte protocol))
    then some invalid
    else if every client_name_byte protocol
    then none
    else some invalid

pub data OperationNameError : Type 0 where
  operation_too_long : OperationNameError
  operation_start : OperationNameError
  operation_character : OperationNameError
  operation_end : OperationNameError

unfoldable pub operation_byte : ℕ → Bool
operation_byte value =
    (leb b'a' value && leb value b'z')
    || (leb b'0' value && leb value b'9')
    || value == b'.'
    || value == b'_'
    || value == b'-'

unfoldable pub validate_operation_name : Text → Option OperationNameError
validate_operation_name name =
    if name == []
    then none
    else if ltb max_operation_name_bytes (length name)
    then some operation_too_long
    else if ltb (first_byte name) b'a' || ltb b'z' (first_byte name)
    then some operation_start
    else if not (every operation_byte name)
    then some operation_character
    else if (ltb (last_byte name) b'a' || ltb b'z' (last_byte name))
        && (ltb (last_byte name) b'0' || ltb b'9' (last_byte name))
    then some operation_end
    else none

pub operation_http_request : Text
operation_http_request = codes "request"

pub data OperationName : Type 0 where
  resolved : Text → OperationName
  refused : OperationNameError → OperationName

unfoldable pub resolve_operation_name : Text → OperationName
resolve_operation_name name = elim (validate_operation_name name) [
  | some e ↦ refused e
  | none ↦ if name == [] then resolved operation_http_request else resolved name
]
