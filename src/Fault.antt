-- ===== src/Fault.antt =====
-- internal/failure/classify.go: the class of a network error. A Go error is the list of the errors
-- that errors.Is and errors.As visit, itself first; of each the model keeps what it is, and whether
-- it is a net.Error and what Timeout then returns. A nil error is the `none` of an Option.
use clientkit.Prelude.{Bool, true, false, ◌||◌, Option, none, some, List, [], ◌∷◌, if◌then◌else◌}
use clientkit.Text.{Text}
use clientkit.Failure.{
  FailureClass, failure_canceled, failure_timeout, failure_tls, failure_name_resolution,
  failure_connection_refused, failure_connection_reset, failure_connection_closed,
  failure_transport,
}

-- The error types that isTLSFailure looks for.
pub data TlsFault : Type 0 where
  certificate_verification_error : TlsFault
  alert_error : TlsFault
  record_header_error : TlsFault
  unknown_authority_error : TlsFault
  hostname_error : TlsFault
  certificate_invalid_error : TlsFault
  constraint_violation_error : TlsFault
  insecure_algorithm_error : TlsFault
  system_roots_error : TlsFault

-- The errors of httpclient/do.go that name a rejected request or redirect.
pub data RequestFault : Type 0 where
  redirect_limit_exceeded : RequestFault
  redirect_replay_not_allowed : RequestFault
  request_url_required : RequestFault
  request_url_must_be_absolute : RequestFault
  request_url_opaque : RequestFault
  request_url_user_information : RequestFault
  request_url_fragment : RequestFault
  request_url_scheme : RequestFault
  request_url_hostname : RequestFault
  request_uri : RequestFault
  request_method : RequestFault
  request_host_override : RequestFault
  request_origin_mismatch : RequestFault

pub data Fault : Type 0 where
  context_canceled : Fault
  context_deadline_exceeded : Fault
  connection_refused : Fault
  connection_reset : Fault
  broken_pipe : Fault
  end_of_file : Fault
  unexpected_end_of_file : Fault
  network_closed : Fault
  -- A *net.DNSError with its IsNotFound.
  dns_error : Bool → Fault
  tls_fault : TlsFault → Fault
  request_fault : RequestFault → Fault
  transport_no_response : Fault
  other_fault : Text → Fault

pub record Link : Type 0 where
  pub fault : Fault
  pub net_timeout : Option Bool

abbrev pub Error : Type 0
Error = List Link

-- An error that wraps nothing and is not a net.Error.
abbrev pub plain : Fault → Error
plain fault = record { fault = fault; net_timeout = none } ∷ []

-- errors.Is and errors.As with a target that a test on faults describes.
unfoldable pub errors_is : (Fault → Bool) → Error → Bool
errors_is test [] = false
errors_is test (link ∷ links) = test link.fault || errors_is test links

abbrev pub is_context_canceled : Fault → Bool
is_context_canceled context_canceled = true
is_context_canceled _ = false

abbrev pub is_context_deadline_exceeded : Fault → Bool
is_context_deadline_exceeded context_deadline_exceeded = true
is_context_deadline_exceeded _ = false

abbrev pub is_connection_refused : Fault → Bool
is_connection_refused connection_refused = true
is_connection_refused _ = false

abbrev pub is_connection_reset : Fault → Bool
is_connection_reset connection_reset = true
is_connection_reset _ = false

abbrev pub is_broken_pipe : Fault → Bool
is_broken_pipe broken_pipe = true
is_broken_pipe _ = false

abbrev pub is_end_of_file : Fault → Bool
is_end_of_file end_of_file = true
is_end_of_file _ = false

abbrev pub is_unexpected_end_of_file : Fault → Bool
is_unexpected_end_of_file unexpected_end_of_file = true
is_unexpected_end_of_file _ = false

abbrev pub is_network_closed : Fault → Bool
is_network_closed network_closed = true
is_network_closed _ = false

abbrev pub is_dns_error : Fault → Bool
is_dns_error (dns_error not_found) = true
is_dns_error _ = false

abbrev pub is_tls_fault : Fault → Bool
is_tls_fault (tls_fault fault) = true
is_tls_fault _ = false

-- errors.As(err, &networkError) && networkError.Timeout(): the first net.Error decides.
unfoldable pub is_network_timeout : Error → Bool
is_network_timeout [] = false
is_network_timeout (link ∷ links) = elim link.net_timeout [
  | none ↦ is_network_timeout links
  | some timeout ↦ timeout
]

unfoldable pub is_tls_failure : Error → Bool
is_tls_failure err = errors_is is_tls_fault err

unfoldable pub network : Error → Bool → FailureClass
network err tls_stage =
    if errors_is is_context_canceled err
    then failure_canceled
    else if errors_is is_context_deadline_exceeded err
    then failure_timeout
    else if is_network_timeout err
    then failure_timeout
    else if tls_stage || is_tls_failure err
    then failure_tls
    else if errors_is is_dns_error err
    then failure_name_resolution
    else if errors_is is_connection_refused err
    then failure_connection_refused
    else if errors_is is_connection_reset err
    then failure_connection_reset
    else if errors_is is_end_of_file err
        || errors_is is_unexpected_end_of_file err
        || errors_is is_network_closed err
        || errors_is is_broken_pipe err
    then failure_connection_closed
    else failure_transport
