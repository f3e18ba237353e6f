-- ===== src/Http/Execution.antt =====
-- The loop of attempts of Client.do of httpclient/do.go. What the loop meets at each attempt is a
-- Meeting, and what it does is a list of effects.
pub mod Trace
pub mod Release
pub mod Verdicts
pub mod Attempts
pub mod Rounds
use clientkit.Prelude.{
  ℕ, zero, suc, ℤ, pos, ◌+◌, Bool, true, false, not, ◌&&◌, ◌||◌, Option, none, some, List, [], ◌∷◌,
  ◌++◌, length, ltb, ltb_ℤ, nat_eq, ◌==◌, if◌then◌else◌, Result, ok, err, pos_part,
}
use clientkit.Text.{Text, codes}
use clientkit.Failure.{
  FailureClass, failure_none, failure_policy, failure_remote_response, failure_transport,
  is_failure_policy,
}
use clientkit.Fault.{Error, plain, other_fault, transport_no_response}
use clientkit.Http.Response.{Response, Body, nil_body, no_body, open_body, is_nil}
use clientkit.Http.Outcome.{
  Outcome, outcome_success, outcome_response_rejected, outcome_execution_error, stage_transport,
  classify_failure, classify_outcome, is_request_policy_error, classify_request_preparation_failure,
}
use clientkit.Http.Safety.{RetryAuthorization, allows_retry}
use clientkit.Http.Classifier.{
  ResponseClassifier, ResponseClassification, response_classified_accepted,
  response_classified_rejected, classify_safely,
}
use clientkit.Http.Retry.{RetryConfig, should_retry}
use clientkit.Http.Delay.{select_retry_delay}
use clientkit.Http.Meeting.{
  RequestBody, request_body_is_replayable, Meeting, Attempt, ExecutionResult, Effect, send,
  close_replayed_body, close_response, drain_response, observe_attempt, observe_retry, wait,
  cancel_attempt, cancel_operation, attach_lifecycle, Policy, request_for_attempt, Exchange,
  exchange, Verdict, verdict,
}

abbrev pub is_success : Outcome → Bool
is_success outcome_success = true
is_success _ = false

abbrev pub status_of : Option Response → ℤ
status_of none = pos 0
status_of (some response) = response.status_code

-- maxAttempts, which is at least 1.
unfoldable pub max_attempts_of : RetryConfig → ℕ
max_attempts_of cfg = if ltb_ℤ cfg.max_attempts (pos 1) then 1 else pos_part cfg.max_attempts

-- The condition under which the loop goes on.
unfoldable pub retries : Policy → ℕ → Option Error → Attempt → Bool
retries policy number operation_error attempt =
    not (is_success attempt.outcome)
    && ltb number (max_attempts_of policy.retry)
    && is_nil operation_error
    && not (is_request_policy_error attempt.error)
    && not (is_failure_policy attempt.failure_class)
    && allows_retry policy.authorization
    && request_body_is_replayable policy.body
    && should_retry policy.retry policy.method attempt.outcome attempt.failure_class
        attempt.status_code attempt.error

abbrev pub attaches : Option Response → Bool
attaches none = false
attaches (some response) = elim response.body [ open_body is_writer ↦ true | _ ↦ false ]

abbrev pub attempt_of : ℕ → Meeting → Verdict → Attempt
attempt_of number m v = record {
  number = number;
  outcome = v.outcome;
  failure_class = v.failure_class;
  status_code = status_of v.exchange.response;
  started_at = m.started_at;
  duration = m.duration;
  error = v.exchange.error;
}

-- The result that carries a context's or a request's error.
abbrev pub stopped : List Attempt → FailureClass → Error → ExecutionResult
stopped attempts class error = record {
  outcome = classify_outcome none (some error);
  failure_class = class;
  status_code = pos 0;
  response = none;
  attempts = attempts;
  error = some error;
}

abbrev pub final_result : List Attempt → Attempt → Option Response → ExecutionResult
final_result attempts attempt response = record {
  outcome = attempt.outcome;
  failure_class = attempt.failure_class;
  status_code = attempt.status_code;
  response = response;
  attempts = attempts;
  error = attempt.error;
}

-- A round ends the operation, or leaves the next one to run with one more attempt on record.
pub data Round : Type 0 where
  finished : List Effect → ExecutionResult → Round
  again : List Effect → List Attempt → Round

abbrev pub close_effects : ℕ → Exchange → List Effect
close_effects number x = if x.closed then close_response number ∷ [] else []

abbrev pub drain_effects : ℕ → Option Response → List Effect
drain_effects number none = []
drain_effects number (some response) = drain_response number ∷ []

-- The end of the operation after its last attempt.
unfoldable pub finish : ℕ → Attempt → Option Response → List Effect
finish number attempt response =
    if is_nil attempt.error && attaches response
    then attach_lifecycle number ∷ []
    else cancel_attempt number ∷ cancel_operation ∷ []

-- The effects between two attempts.
abbrev pub waiting : ℕ → Option Response → Effect → Effect → List Effect
waiting number response report pause =
    drain_effects number response ++ cancel_attempt number ∷ report ∷ pause ∷ []

abbrev pub delay_with :
    Policy → ℕ → Meeting → List Effect → List Attempt → Attempt → Option Response → ℤ × Bool → Round
delay_with policy number m effects attempts attempt response (delay, by_server) =
    let waited =
      effects
      ++ waiting number response (observe_retry number delay by_server attempt.outcome)
          (wait delay) in
    elim m.wait_error [
      | some error ↦
          finished (waited ++ cancel_operation ∷ [])
            (stopped attempts (classify_failure stage_transport none (some error)) error)
      | none ↦ again waited attempts
    ]

-- The wait for the next attempt: the delay, and the context's error if it ends first.
unfoldable pub delay_round :
    Policy → ℕ → Meeting → List Effect → List Attempt → Attempt → Option Response → Round
delay_round policy number m effects attempts attempt response =
    delay_with policy number m effects attempts attempt response (
      select_retry_delay policy.parse_time policy.retry m.policy_delay attempt.outcome response
        m.ended_at)

-- The effects of an attempt up to its report.
abbrev pub opening : ℕ → Exchange → Attempt → List Effect
opening number x attempt = send number ∷ close_effects number x ++ observe_attempt attempt ∷ []

-- A round after the verdict on its attempt.
unfoldable pub conclude_attempt : Policy → ℕ → Meeting → List Attempt → Exchange → Attempt → Round
conclude_attempt policy number m attempts x attempt =
    if retries policy number m.operation_error_after attempt
    then delay_round policy number m (opening number x attempt) (attempts ++ attempt ∷ []) attempt
        x.response
    else finished (opening number x attempt ++ finish number attempt x.response)
        (final_result (attempts ++ attempt ∷ []) attempt x.response)

-- A round from the call of httpClient.Do on.
unfoldable pub attempt_round : Policy → ℕ → Meeting → List Attempt → Round
attempt_round policy number m attempts =
    let v = verdict policy.classifier (exchange m) m.classified_context_error in
    conclude_attempt policy number m attempts v.exchange (attempt_of number m v)

abbrev pub replay_effects : Bool → List Effect
replay_effects closes = if closes then close_replayed_body ∷ [] else []

-- A round from the result of requestForAttempt on.
unfoldable pub prepared_round : Policy → ℕ → Meeting → List Attempt → Option Error × Bool → Round
prepared_round policy number m attempts (none, closes) = attempt_round policy number m attempts
prepared_round policy number m attempts (some error, closes) =
    finished (replay_effects closes ++ cancel_attempt number ∷ cancel_operation ∷ [])
      (stopped attempts (classify_request_preparation_failure error) error)

unfoldable pub round : Policy → ℕ → Meeting → List Attempt → Round
round policy number m attempts = elim m.operation_error [
  | some error ↦
      finished (cancel_operation ∷ [])
        (stopped attempts (classify_failure stage_transport none (some error)) error)
  | none ↦ prepared_round policy number m attempts (request_for_attempt policy.body number m)
]

abbrev pub without_attempt : List Attempt → ExecutionResult
without_attempt attempts = record {
  outcome = outcome_execution_error;
  failure_class = failure_transport;
  status_code = pos 0;
  response = none;
  attempts = attempts;
  error = some (plain (other_fault (codes "clientkit: HTTP execution ended without an attempt")));
}

-- The effects of a round and of those after it.
abbrev pub followed_by :
    Round → (List Attempt → List Effect × ExecutionResult) → List Effect × ExecutionResult
followed_by (finished effects result) next = (effects, result)
followed_by (again effects attempts) next =
    let (later, result) = next attempts in (effects ++ later, result)

-- `left` rounds, the first of which has the number given.
unfoldable pub run_rounds :
    Policy → (ℕ → Meeting) → ℕ → ℕ → List Attempt → List Effect × ExecutionResult
run_rounds policy meet zero number attempts = (cancel_operation ∷ [], without_attempt attempts)
run_rounds policy meet (suc left) number attempts =
    followed_by (round policy number (meet number) attempts)
      (run_rounds policy meet left (suc number))

unfoldable pub execute_attempts : Policy → (ℕ → Meeting) → List Effect × ExecutionResult
execute_attempts policy meet = run_rounds policy meet (max_attempts_of policy.retry) 1 []
