-- ===== src/Telemetry/Transport.antt =====
-- internal/httpotel: the per-operation state in a request's context, the transport that records one
-- span for each round trip, and what the span is told. A span attribute is named for the semconv
-- function that makes it, since that package gives its key.
use clientkit.Prelude.{
  ℕ, suc, Bool, true, false, ◌&&◌, Option, none, some, List, [], ◌∷◌, ◌++◌, ◌==◌, ℤ, pos, int_eq,
  nat_eq, ltb_ℤ, leb_ℤ, if◌then◌else◌,
}
use clientkit.Text.{Text, text_eq, codes}
use clientkit.Fault.{
  Fault, tls_fault, certificate_verification_error, end_of_file, network_closed, Error, plain,
  transport_no_response, errors_is, is_context_canceled, is_context_deadline_exceeded,
  is_network_timeout, is_dns_error,
}
use clientkit.Http.Response.{Response}
use clientkit.Http.Propagation.{Trip, Returned}

-- operationMetadata, with the counter of its operationState.
pub record OperationState : Type 0 where
  pub client : Text
  pub operation : Text
  pub resends : ℕ

pub record OperationMetadata : Type 0 where
  pub state : Option OperationState
  pub attempt : ℤ

abbrev no_metadata : OperationMetadata
no_metadata = record { state = none; attempt = pos 0 }

-- The value that a context holds under operationContextKey.
abbrev pub metadata_from_context : Option OperationMetadata → OperationMetadata
metadata_from_context none = no_metadata
metadata_from_context (some metadata) = metadata

unfoldable pub with_operation : Text → Text → OperationMetadata
with_operation client operation = record {
  state = some (record { client = client; operation = operation; resends = 0 });
  attempt = pos 0;
}

unfoldable pub with_execution_attempt : Option OperationMetadata → ℤ → OperationMetadata
with_execution_attempt held attempt = record (metadata_from_context held) { attempt = attempt }

-- The metadata afterwards, and the number of round trips before this one.
unfoldable pub next_resend_count : OperationMetadata → OperationMetadata × ℕ
next_resend_count metadata = elim metadata.state [
  | none ↦ (metadata, 0)
  | some state ↦ (
    record metadata { state = some (record state { resends = suc state.resends }) },
    state.resends,
  )
]

pub data RequestMethod : Type 0 where
  method_connect : RequestMethod
  method_delete : RequestMethod
  method_get : RequestMethod
  method_head : RequestMethod
  method_options : RequestMethod
  method_patch : RequestMethod
  method_post : RequestMethod
  method_put : RequestMethod
  method_trace : RequestMethod
  method_query : RequestMethod
  method_other : RequestMethod

unfoldable pub known_named_method : Text → RequestMethod × Bool
known_named_method method =
    if method == codes "CONNECT"
    then (method_connect, true)
    else if method == codes "DELETE"
    then (method_delete, true)
    else if method == codes "GET"
    then (method_get, true)
    else if method == codes "HEAD"
    then (method_head, true)
    else if method == codes "OPTIONS"
    then (method_options, true)
    else if method == codes "PATCH"
    then (method_patch, true)
    else if method == codes "POST"
    then (method_post, true)
    else if method == codes "PUT"
    then (method_put, true)
    else if method == codes "TRACE"
    then (method_trace, true)
    else if method == codes "QUERY"
    then (method_query, true)
    else (method_other, false)

unfoldable pub known_method : Text → RequestMethod × Bool
known_method [] = (method_get, true)
known_method method = known_named_method method

-- The span's name: `HTTP` or the method.
unfoldable pub span_name : RequestMethod → Bool → Option RequestMethod
span_name method known = if known then some method else none

pub data HttpErrorType : Type 0 where
  error_type_named : Text → HttpErrorType
  -- The decimal digits of a status.
  error_type_status : ℤ → HttpErrorType

pub data SpanAttribute : Type 0 where
  http_request_method : RequestMethod → SpanAttribute
  http_request_method_original : Text → SpanAttribute
  clientkit_attribute : Text → Text → SpanAttribute
  clientkit_attempt_number : ℤ → SpanAttribute
  http_request_resend_count : ℕ → SpanAttribute
  http_response_status_code : ℤ → SpanAttribute
  network_protocol_version : Text → SpanAttribute
  error_type : HttpErrorType → SpanAttribute
  configured_attribute : Text → Text → SpanAttribute

abbrev is_certificate_verification : Fault → Bool
is_certificate_verification (tls_fault certificate_verification_error) = true
is_certificate_verification _ = false

abbrev is_closed : Fault → Bool
is_closed end_of_file = true
is_closed network_closed = true
is_closed _ = false

abbrev pub failed_status : Option Response → Option HttpErrorType
failed_status none = none
failed_status (some response) =
    if leb_ℤ (pos 400) response.status_code
    then some (error_type_status response.status_code)
    else none

abbrev pub error_name : Error → Text
error_name error =
    if errors_is is_context_canceled error
    then codes "canceled"
    else if errors_is is_context_deadline_exceeded error
    then codes "timeout"
    else if is_network_timeout error
    then codes "timeout"
    else if errors_is is_dns_error error
    then codes "dns_error"
    else if errors_is is_certificate_verification error
    then codes "tls_error"
    else if errors_is is_closed error
    then codes "connection_closed"
    else codes "_OTHER"

unfoldable pub http_error_type : Option Response → Option Error → Option HttpErrorType
http_error_type response (some error) = some (error_type_named (error_name error))
http_error_type response none = failed_status response

unfoldable pub protocol_version : ℤ → ℤ → Text
protocol_version major minor =
    if major == pos 1 && minor == pos 0
    then codes "1.0"
    else if major == pos 1 && minor == pos 1
    then codes "1.1"
    else if major == pos 2
    then codes "2"
    else if major == pos 3
    then codes "3"
    else []

abbrev version_attribute : Text → List SpanAttribute
version_attribute [] = []
version_attribute version = network_protocol_version version ∷ []

abbrev pub status_attributes : Option Response → ℤ → ℤ → List SpanAttribute
status_attributes none major minor = []
status_attributes (some response) major minor =
    http_response_status_code response.status_code
    ∷ version_attribute (protocol_version major minor)

abbrev pub error_attribute : Option HttpErrorType → List SpanAttribute
error_attribute none = []
error_attribute (some type) = error_type type ∷ []

abbrev pub is_some {ℓ} : {A : Type ℓ} → Option A → Bool
is_some none = false
is_some (some a) = true

-- The attributes at the end of a span, the type of the error, and whether the span failed; `major`
-- and `minor` are the response's protocol version.
unfoldable pub response_attributes :
    Option Response → ℤ → ℤ → Option Error → List SpanAttribute × Option HttpErrorType × Bool
response_attributes response major minor error =
    let type = http_error_type response error in
    (status_attributes response major minor ++ error_attribute type, type, is_some type)

abbrev operation_span_attributes : Option OperationState → List SpanAttribute
operation_span_attributes none = []
operation_span_attributes (some state) =
    clientkit_attribute (codes "clientkit.client.name") state.client
    ∷ clientkit_attribute (codes "clientkit.operation") state.operation
    ∷ []

abbrev original_method : Bool → Text → List SpanAttribute
original_method false [] = []
original_method false method = http_request_method_original method ∷ []
original_method true method = []

-- The attributes that RoundTrip starts its span with, before they are merged; `configured` are the
-- transport's own, and `target` those of the request's target, if they are wanted.
unfoldable pub request_attributes :
    List SpanAttribute → OperationMetadata → Text → List SpanAttribute → List SpanAttribute
request_attributes configured metadata method target =
    let (kind, known) = known_method method in
    let (metadata', resends) = next_resend_count metadata in
    configured
    ++ (http_request_method kind
        ∷ clientkit_attribute (codes "clientkit.protocol") (codes "http")
        ∷ [])
    ++ original_method known method
    ++ operation_span_attributes metadata.state
    ++ (if ltb_ℤ (pos 0) metadata.attempt
        then clientkit_attempt_number metadata.attempt ∷ []
        else [])
    ++ (if resends == 0 then [] else http_request_resend_count resends ∷ [])
    ++ target

-- The tests after t.base.RoundTrip: the response, the error, and the responses that were closed.
abbrev after_call :
    Option Error → Option Response → Option Error → Option Response × Option Error × List Response
after_call (some ended) none error = (none, some ended, [])
after_call (some ended) (some response) error = (none, some ended, response ∷ [])
after_call none (some response) (some error) = (none, some error, response ∷ [])
after_call none response error = (response, error, [])

-- `if response == nil && err == nil`.
abbrev invalid_result : Option Response → Option Error → Option Error
invalid_result none none = some (plain transport_no_response)
invalid_result response error = error

abbrev called_trip : Option Response × Option Error × List Response → Returned
called_trip (response, error, closed) = record {
  response = response;
  error = invalid_result response error;
  called = true;
  request_closed = false;
  closed = closed;
}

-- Transport.RoundTrip, but for its span and its metrics.
unfoldable pub telemetry_round_trip : Trip → Returned
telemetry_round_trip t = elim t.before [
  | some ended ↦ record {
    response = none;
    error = invalid_result none (some ended);
    called = false;
    request_closed = true;
    closed = [];
  }
  | none ↦ called_trip (after_call t.after t.answer t.failure)
]
