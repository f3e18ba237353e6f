-- ===== src/Http/Operation.antt =====
-- Client.do of httpclient/do.go around its loop of attempts: the checks before it, the events of the
-- operation, and the request body that is closed if nothing was sent.
pub mod Checked
use clientkit.Prelude.{
  ℕ, Bool, true, false, not, ◌&&◌, Option, none, some, List, [], ◌∷◌, ◌++◌, map, pos, Result, ok,
  err, if◌then◌else◌,
}
use clientkit.Text.{Text, codes}
use clientkit.Failure.{FailureClass, failure_policy}
use clientkit.Fault.{RequestFault, request_url_required, request_fault, other_fault, Error, plain}
use clientkit.Http.Outcome.{
  FailureStage, stage_configuration, stage_policy, stage_request, outcome_execution_error,
  classify_failure, is_origin_policy_error,
}
use clientkit.Http.Safety.{
  RetrySafety, RetryAuthorization, SafetyError, retry_authorization_for, normalized_http_method,
}
use clientkit.Http.Meeting.{Meeting, ExecutionResult, Effect, Policy, RequestBody, request_reader}
use clientkit.Http.Execution.{execute_attempts}
use clientkit.Http.Execution.Trace.{sent}
use clientkit.Http.Origin.{Url, Request, OriginPolicy, validate_request_origin}

pub data OperationEvent : Type 0 where
  operation_started : OperationEvent
  operation_effect : Effect → OperationEvent
  operation_ended : ExecutionResult → OperationEvent
  request_body_closed : OperationEvent

abbrev pub refused : FailureClass → Error → ExecutionResult
refused class error = record {
  outcome = outcome_execution_error;
  failure_class = class;
  status_code = pos 0;
  response = none;
  attempts = [];
  error = some error;
}

-- A request that is wrong, and one that the client's policy forbids.
abbrev pub refused_request : RequestFault → ExecutionResult
refused_request fault =
    let error = plain (request_fault fault) in
    let stage = if is_origin_policy_error (some error) then stage_policy else stage_request in
    refused (classify_failure stage none (some error)) error

abbrev pub authorized :
    Result SafetyError RetryAuthorization → Result ExecutionResult RetryAuthorization
authorized (err e) =
    err
      (refused failure_policy (plain (other_fault (codes "clientkit: invalid HTTP retry safety"))))
authorized (ok authorization) = ok authorization

abbrev pub after_validation :
    Result RequestFault (Unit {0})
    → Result ExecutionResult RetryAuthorization
    → Result ExecutionResult RetryAuthorization
after_validation (err fault) next = err (refused_request fault)
after_validation (ok u) next = next

module _ (equal_fold : Text → Text → Bool) where
  abbrev pub check_url :
      OriginPolicy → RetrySafety → Request → Option Url → Result ExecutionResult RetryAuthorization
  check_url policy safety request none = err (
      refused
        (classify_failure stage_request none (some (plain (request_fault request_url_required))))
        (plain (request_fault request_url_required)))
  check_url policy safety request (some url) =
      after_validation (validate_request_origin equal_fold policy request)
        (authorized (retry_authorization_for (normalized_http_method request.method) safety))

  -- The checks before the operation starts; `configured` is that the client, its http.Client and its
  -- base URL are there.
  unfoldable pub check_operation :
      Bool → OriginPolicy → RetrySafety → Option Request → Result ExecutionResult RetryAuthorization
  check_operation false policy safety request = err (
      refused (classify_failure stage_configuration none none)
        (plain (other_fault (codes "clientkit: HTTP client is not configured"))))
  check_operation true policy safety none = err (
      refused (classify_failure stage_request none none)
        (plain (other_fault (codes "clientkit: request is required"))))
  check_operation true policy safety (some request) = check_url policy safety request request.url

  abbrev close_body : RequestBody → List OperationEvent
  close_body (request_reader has_get_body) = request_body_closed ∷ []
  close_body _ = []

  -- closeRequestBody.
  unfoldable pub close_request_body : Option Request → List OperationEvent
  close_request_body none = []
  close_request_body (some request) = close_body request.body

  abbrev pub close_unattempted : Option Request → List ℕ → List OperationEvent
  close_unattempted request [] = close_request_body request
  close_unattempted request (number ∷ numbers) = []

  -- What the loop is given: the policy of the execution for this request.
  abbrev pub policy_for : Option Request → Policy → RetryAuthorization → Policy
  policy_for none policy authorization = record policy { authorization = authorization }
  policy_for (some request) policy authorization = record policy {
    method = normalized_http_method request.method;
    body = request.body;
    authorization = authorization;
  }

  abbrev pub run_checked :
      Option Request
      → Policy
      → (ℕ → Meeting)
      → Result ExecutionResult RetryAuthorization
      → List OperationEvent × ExecutionResult
  run_checked request policy meet (err result) = (close_unattempted request [], result)
  run_checked request policy meet (ok authorization) =
      let (effects, result) = execute_attempts (policy_for request policy authorization) meet in
      (
        operation_started ∷ map operation_effect effects
            ++ operation_ended result ∷ close_unattempted request (sent effects),
        result,
      )

  unfoldable pub do_operation :
      Bool
      → OriginPolicy
      → RetrySafety
      → Option Request
      → Policy
      → (ℕ → Meeting)
      → List OperationEvent × ExecutionResult
  do_operation configured origin safety request policy meet =
      run_checked request policy meet (check_operation configured origin safety request)
