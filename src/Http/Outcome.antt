-- ===== src/Http/Outcome.antt =====
-- httpclient/result.go, httpclient/failure.go and the classification functions of httpclient/do.go.
pub mod Agreement
use clientkit.Prelude.{
  ℤ, pos, Bool, true, false, not, ◌&&◌, ◌||◌, Option, none, some, List, ltb_ℤ, leb_ℤ, if◌then◌else◌,
}
use clientkit.Failure.{
  FailureClass, failure_none, failure_configuration, failure_policy, failure_request,
  failure_transport, failure_remote_response,
}
use clientkit.Fault.{
  RequestFault, request_host_override, request_origin_mismatch, Fault, request_fault, Error,
  errors_is, is_context_canceled, is_context_deadline_exceeded, is_network_timeout, network,
}
use clientkit.Http.Response.{Response, is_nil}

pub data Outcome : Type 0 where
  outcome_success : Outcome
  outcome_response_rejected : Outcome
  outcome_timeout : Outcome
  outcome_canceled : Outcome
  outcome_execution_error : Outcome

pub data FailureStage : Type 0 where
  stage_transport : FailureStage
  stage_configuration : FailureStage
  stage_policy : FailureStage
  stage_request : FailureStage

abbrev pub is_request_fault : Fault → Bool
is_request_fault (request_fault fault) = true
is_request_fault _ = false

abbrev pub is_origin_fault : Fault → Bool
is_origin_fault (request_fault request_host_override) = true
is_origin_fault (request_fault request_origin_mismatch) = true
is_origin_fault _ = false

-- isRequestPolicyError and isOriginPolicyError, on an error that may be nil.
unfoldable pub is_request_policy_error : Option Error → Bool
is_request_policy_error none = false
is_request_policy_error (some err) = errors_is is_request_fault err

unfoldable pub is_origin_policy_error : Option Error → Bool
is_origin_policy_error none = false
is_origin_policy_error (some err) = errors_is is_origin_fault err

unfoldable pub is_redirect_policy_failure : Option Response → Option Error → Bool
is_redirect_policy_failure response err = not (is_nil response) && not (is_nil err)

-- 200 ≤ status < 300.
abbrev pub is_accepted_status : ℤ → Bool
is_accepted_status status = leb_ℤ (pos 200) status && ltb_ℤ status (pos 300)

-- classifyFailure after the policy checks.
abbrev transport_failure : Option Response → Option Error → FailureClass
transport_failure response (some err) = network err false
transport_failure none none = failure_transport
transport_failure (some response) none =
    if is_accepted_status response.status_code then failure_none else failure_remote_response

unfoldable pub classify_failure : FailureStage → Option Response → Option Error → FailureClass
classify_failure stage_configuration response err = failure_configuration
classify_failure stage_policy response err = failure_policy
classify_failure stage_request response err = failure_request
classify_failure stage_transport response err =
    if is_redirect_policy_failure response err
    then failure_policy
    else if is_request_policy_error err
    then failure_policy
    else transport_failure response err

unfoldable pub classify_outcome : Option Response → Option Error → Outcome
classify_outcome (some response) (some err) = outcome_execution_error
classify_outcome none (some err) =
    if errors_is is_context_canceled err
    then outcome_canceled
    else if errors_is is_context_deadline_exceeded err
    then outcome_timeout
    else if is_network_timeout err
    then outcome_timeout
    else outcome_execution_error
classify_outcome none none = outcome_execution_error
classify_outcome (some response) none =
    if is_accepted_status response.status_code then outcome_success else outcome_response_rejected

unfoldable pub classify_request_preparation_failure : Error → FailureClass
classify_request_preparation_failure err =
    if errors_is is_context_canceled err || errors_is is_context_deadline_exceeded err
    then classify_failure stage_transport none (some err)
    else classify_failure stage_request none (some err)
