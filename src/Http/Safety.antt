-- ===== src/Http/Safety.antt =====
-- httpclient/retry_safety.go, httpclient/transport_retry.go and normalizedHTTPMethod of
-- httpclient/observability.go: which operations may be repeated, and after which failures.
use clientkit.Prelude.{
  Bool, true, false, not, ◌&&◌, Option, none, some, List, [], ◌∷◌, contains, if◌then◌else◌, Result,
  ok, err,
}
use clientkit.Text.{Text, text_eq, codes}
use clientkit.Failure.{FailureClass}
use clientkit.Failure
use clientkit.Fault.{Fault, dns_error, transport_no_response, Error, errors_is}

pub data RetrySafety : Type 0 where
  safety_default : RetrySafety
  safety_never : RetrySafety
  safety_idempotent : RetrySafety
  safety_other : Text → RetrySafety

pub data RetryAuthorization : Type 0 where
  authorization_method : RetryAuthorization
  authorization_explicit : RetryAuthorization
  authorization_denied : RetryAuthorization
  authorization_disabled : RetryAuthorization

-- The empty method stands for GET.
unfoldable pub normalized_http_method : Text → Text
normalized_http_method [] = codes "GET"
normalized_http_method (c ∷ method) = c ∷ method

abbrev pub idempotent_methods : List Text
idempotent_methods =
    codes "GET" ∷ codes "HEAD" ∷ codes "OPTIONS" ∷ codes "TRACE" ∷ codes "PUT" ∷ codes "DELETE" ∷ []

unfoldable pub method_is_idempotent : Text → Bool
method_is_idempotent method = contains idempotent_methods (normalized_http_method method)

-- invalidRetrySafetyError.
pub data SafetyError : Type 0 where
  invalid_retry_safety : Text → SafetyError

unfoldable pub retry_authorization_for : Text → RetrySafety → Result SafetyError RetryAuthorization
retry_authorization_for method safety_default =
    ok (if method_is_idempotent method then authorization_method else authorization_denied)
retry_authorization_for method safety_never = ok authorization_disabled
retry_authorization_for method safety_idempotent = ok authorization_explicit
retry_authorization_for method (safety_other safety) = err (invalid_retry_safety safety)

unfoldable pub validate_retry_safety : RetrySafety → Option SafetyError
validate_retry_safety (safety_other safety) = some (invalid_retry_safety safety)
validate_retry_safety _ = none

unfoldable pub allows_retry : RetryAuthorization → Bool
allows_retry authorization_method = true
allows_retry authorization_explicit = true
allows_retry _ = false

pub data TransportRetryMode : Type 0 where
  transport_retry_none : TransportRetryMode
  transport_retry_default : TransportRetryMode
  transport_retry_all : TransportRetryMode
  transport_retry_other : Text → TransportRetryMode

unfoldable pub valid_transport_retry_mode : TransportRetryMode → Bool
valid_transport_retry_mode (transport_retry_other mode) = false
valid_transport_retry_mode _ = true

abbrev pub is_no_response : Fault → Bool
is_no_response transport_no_response = true
is_no_response _ = false

-- !errors.As(err, &dnsError) || !dnsError.IsNotFound: the first *net.DNSError decides.
unfoldable pub found_name : Error → Bool
found_name [] = true
found_name (link ∷ links) = elim link.fault [
  | dns_error not_found ↦ not not_found
  | _ ↦ found_name links
]

-- A nil error is no error at all for errors.Is and errors.As.
abbrev pub error_or_empty : Option Error → Error
error_or_empty none = []
error_or_empty (some failure) = failure

abbrev pub class_allows : FailureClass → Error → Bool
class_allows Failure.failure_name_resolution failure = found_name failure
class_allows Failure.failure_connection_refused failure = true
class_allows Failure.failure_connection_reset failure = true
class_allows Failure.failure_connection_closed failure = true
class_allows Failure.failure_transport failure = true
class_allows _ failure = false

unfoldable pub transport_allows : TransportRetryMode → FailureClass → Option Error → Bool
transport_allows transport_retry_none class failure = false
transport_allows transport_retry_all class failure = true
transport_allows transport_retry_default class failure =
    not (errors_is is_no_response (error_or_empty failure))
    && class_allows class (error_or_empty failure)
transport_allows (transport_retry_other mode) class failure = false
