-- ===== src/Http/Outcome/Agreement.antt =====
-- How the outcome and the failure class of a result relate.
use clientkit.Prelude.{◌≡◌, refl, Bool, true, false, Option, none, some, arith}
use clientkit.Failure.{FailureClass}
use clientkit.Failure
use clientkit.Fault.{Error, network}
use clientkit.Http.Response.{Response}
use clientkit.Http.Outcome.{
  Outcome, outcome_success, outcome_response_rejected, outcome_timeout, outcome_canceled,
  outcome_execution_error, stage_transport, classify_failure, classify_outcome,
  is_redirect_policy_failure, is_request_policy_error,
}

-- The classes of an attempt that failed on its way.
abbrev pub is_execution_class : FailureClass → Bool
is_execution_class Failure.failure_none = false
is_execution_class Failure.failure_canceled = false
is_execution_class Failure.failure_timeout = false
is_execution_class Failure.failure_remote_response = false
is_execution_class _ = true

-- Policy failures may come with any outcome of a failed execution.
abbrev pub agree : Outcome → FailureClass → Bool
agree outcome_success Failure.failure_none = true
agree outcome_response_rejected Failure.failure_remote_response = true
agree outcome_timeout Failure.failure_timeout = true
agree outcome_timeout Failure.failure_policy = true
agree outcome_canceled Failure.failure_canceled = true
agree outcome_canceled Failure.failure_policy = true
agree outcome_execution_error class = is_execution_class class
agree _ _ = false

-- classifyOutcome and classifyFailure, whatever response and error they are given, agree: success
-- comes with no failure class, a rejected response with remote_response, a timeout or a
-- cancellation with its own class, and any of the last three may be a policy failure.
pub classify-agree :
    (response : Option Response) (err : Option Error)
    → agree (classify_outcome response err) (classify_failure stage_transport response err) ≡ true
unfolding classify_outcome classify_failure is_redirect_policy_failure is_request_policy_error
    network
classify-agree (some response) (some err) = refl
classify-agree none none = refl
classify-agree (some response) none = ground arith
classify-agree none (some err) = ground arith
