-- ===== src/Examples/Serving.antt =====
-- Examples for the HTTP client: a request that is answered 503 with Retry-After, then 200.
use clientkit.Prelude.{
  ℕ, ◌≡◌, refl, true, false, Option, none, some, List, [], ◌∷◌, ◌+◌, length, ◌≤◌, ◌≤ℤ◌, ◌&&◌, ℤ,
  pos, max_int64, ok, if◌then◌else◌, int_eq, nat_eq, ◌==◌, leb_ℤ, contains, arith,
}
use clientkit.Text.{Text, text_eq, codes}
use clientkit.Fault.{plain, context_deadline_exceeded}
use clientkit.Http.Response.{Response, open_body}
use clientkit.Http.Outcome.{
  stage_transport, classify_outcome, classify_failure, outcome_response_rejected, outcome_success,
  is_request_policy_error, is_accepted_status,
}
use clientkit.Http.Outcome.Agreement.{agree, classify-agree}
use clientkit.Http.Safety.{authorization_method, allows_retry, valid_transport_retry_mode}
use clientkit.Http.Classifier.{
  default_response_classifier, normalize_response_classifier, classify, classify_safely,
  response_classified_accepted, response_classified_rejected, accept_status, accept_status_class,
  accept_status_range, accept_any_status, is_status,
}
use clientkit.Http.Classifier.Statuses.{
  default-classify_outcome, Promise, class_bounds, valid_range, some_and_distinct, constructors_lem,
}
use clientkit.Http.Retry.{
  default_retry_config, no_retry_config, should_retry, validate_retry_config,
  normalize_retry_config, validate_status_codes, validate_methods, retry_config_is_zero,
}
use clientkit.Http.Retry.Valid.{
  IsRetryPolicy, default_retry_config-valid, validate_retry_config-IsRetryPolicy,
}
use clientkit.Http.Override.{
  ExecutionRetry, source_operation, resolve_execution_retry, ExecutionTimeouts,
  resolve_execution_timeouts, duration,
}
use clientkit.Http.Override.Valid.{resolve_execution_retry_lem, resolve_execution_timeouts_lem}
use clientkit.Http.Delay.{select_retry_delay, retry_after_delay}
use clientkit.Http.Delay.Bounds.{select_retry_delay_lem}
use clientkit.Http.Meeting.{
  Meeting, Policy, request_without_body, request_for_attempt, verdict, exchange,
  request_body_is_replayable,
}
use clientkit.Http.Execution.{
  round, prepared_round, attempt_round, conclude_attempt, retries, delay_round, finish,
  execute_attempts, run_rounds, max_attempts_of, is_success,
}
use clientkit.Http.Execution.Trace.{sent, observed, released, received, ended, one_if}
use clientkit.Http.Execution.Attempts.{numbers, Series, execute_attempts-Series}
use clientkit.Http.Execution.Release.{execute_attempts-released}
use clientkit.Http.Execution.Rounds.{execute_attempts-enough, execute_attempts-IsHonest}
use clientkit.Http.Execution.Verdicts.{IsAccepted}

abbrev no_dates : Text → Option ℕ
no_dates text = none

abbrev busy : Response
busy = record { status_code = pos 503; retry_after = codes "2" ∷ []; body = open_body false }

abbrev pub fine : Response
fine = record { status_code = pos 200; retry_after = []; body = open_body false }

abbrev answered : Response → Meeting
answered response = record {
  operation_error = none;
  attempt_error = none;
  replayed_body = false;
  replay_error = none;
  replay_context_error = none;
  started_at = 10;
  ended_at = 20;
  duration = pos 10;
  response = some response;
  exchange_error = none;
  exchange_context_error = none;
  classified_context_error = none;
  operation_error_after = none;
  policy_delay = pos 200_000_000;
  wait_error = none;
}

abbrev pub meet : ℕ → Meeting
meet number = if number == 1 then answered busy else answered fine

abbrev pub getting : Policy
getting = record {
  parse_time = no_dates;
  method = codes "GET";
  body = request_without_body;
  authorization = authorization_method;
  classifier = default_response_classifier;
  retry = default_retry_config;
}

execute_attempts-Series_example :
    let (effects, result) = execute_attempts getting meet in
    (observed effects ≡ result.attempts)
    × (sent effects ≡ numbers result.attempts)
    × (length result.attempts ≤ max_attempts_of default_retry_config)
    × Series getting 1 result.attempts
execute_attempts-Series_example = execute_attempts-Series getting meet

execute_attempts-released_example :
    let (effects, result) = execute_attempts getting meet in
    (received meet effects ≡ released effects + one_if result.response) × (ended effects ≡ 1)
execute_attempts-released_example = execute_attempts-released getting meet

execute_attempts-enough_example : run_rounds getting meet 7 1 [] ≡ execute_attempts getting meet
unfolding max_attempts_of default_retry_config
execute_attempts-enough_example = execute_attempts-enough getting meet 7 (omega arith)

succeeds : is_success (execute_attempts getting meet).1.outcome ≡ true
unfolding execute_attempts run_rounds max_attempts_of default_retry_config round prepared_round
    request_for_attempt attempt_round conclude_attempt retries verdict exchange classify_safely
    classify is_request_policy_error allows_retry request_body_is_replayable should_retry
    delay_round finish
succeeds = refl

execute_attempts-IsHonest_example :
    IsAccepted default_response_classifier
      (execute_attempts getting meet).1.response
      (execute_attempts getting meet).1.error
execute_attempts-IsHonest_example = execute_attempts-IsHonest getting meet succeeds

classify-agree_example :
    agree
      (classify_outcome none (some (plain context_deadline_exceeded)))
      (classify_failure stage_transport none (some (plain context_deadline_exceeded)))
    ≡ true
classify-agree_example = classify-agree none (some (plain context_deadline_exceeded))

default-classify_outcome_example :
    (classify_safely (normalize_response_classifier none) (some busy) ≡ (
      if is_accepted_status (pos 503)
      then response_classified_accepted
      else response_classified_rejected))
    × (classify_outcome (some busy) none
        ≡ (if is_accepted_status (pos 503) then outcome_success else outcome_response_rejected))
default-classify_outcome_example = default-classify_outcome busy

abbrev listed : List ℤ
listed = pos 200 ∷ pos 404 ∷ []

constructors_lem_example :
    Promise (accept_status (pos 204)) (is_status (pos 204)) (λ s. s == pos 204)
    × Promise
        (accept_status_class (pos 2))
        (leb_ℤ (pos 1) (pos 2) && leb_ℤ (pos 2) (pos 5))
        (class_bounds (pos 2))
    × Promise
        (accept_status_range (pos 300) (pos 200))
        (valid_range (pos 300) (pos 200))
        (λ s. leb_ℤ (pos 300) s && leb_ℤ s (pos 200))
    × Promise (accept_any_status listed) (some_and_distinct listed) (contains listed)
constructors_lem_example = constructors_lem (pos 204) (pos 2) (pos 300) (pos 200) listed

validate_retry_config-IsRetryPolicy_example : IsRetryPolicy default_retry_config
validate_retry_config-IsRetryPolicy_example =
    validate_retry_config-IsRetryPolicy default_retry_config default_retry_config-valid

abbrev single_attempt : ExecutionRetry
single_attempt = record { config = no_retry_config; disable = false }

resolved :
    resolve_execution_retry default_retry_config single_attempt
    ≡ ok (record { config = no_retry_config; source = source_operation })
unfolding resolve_execution_retry retry_config_is_zero no_retry_config validate_retry_config
    normalize_retry_config valid_transport_retry_mode validate_status_codes validate_methods
resolved = refl

resolve_execution_retry_lem_example :
    IsRetryPolicy no_retry_config
    × (no_retry_config ≡ (
        if false
        then no_retry_config
        else (if retry_config_is_zero no_retry_config
            then default_retry_config
            else no_retry_config)))
resolve_execution_retry_lem_example =
    resolve_execution_retry_lem default_retry_config single_attempt
      (record { config = no_retry_config; source = source_operation })
      (validate_retry_config-IsRetryPolicy default_retry_config default_retry_config-valid) resolved

abbrev unlimited : ExecutionTimeouts
unlimited = record {
  timeout = pos 0;
  disable_timeout = true;
  attempt_timeout = pos 5;
  disable_attempt_timeout = false;
}

timed :
    resolve_execution_timeouts (pos 30) (pos 10) unlimited
    ≡ ok (record { timeout = pos 0; attempt_timeout = pos 5 })
unfolding resolve_execution_timeouts duration
timed = refl

resolve_execution_timeouts_lem_example :
    (pos 0 ≡ (if true then pos 0 else (if pos 0 == pos 0 then pos 30 else pos 0)))
    × (pos 5 ≡ (if false then pos 0 else (if pos 5 == pos 0 then pos 10 else pos 5)))
    × (pos 0 ≤ℤ pos 0)
    × (pos 0 ≤ℤ pos 5)
resolve_execution_timeouts_lem_example =
    resolve_execution_timeouts_lem (pos 30) (pos 10) unlimited
      (record { timeout = pos 0; attempt_timeout = pos 5 }) (omega arith) (omega arith) timed

select_retry_delay_lem_example :
    let (delay, by_server) =
      select_retry_delay no_dates default_retry_config
        (pos 100)
        outcome_response_rejected
        (some busy)
        20 in
    (pos 100 ≤ℤ delay)
    × (by_server ≡ false → delay ≡ pos 100)
    × (by_server ≡ true
        → (delay ≤ℤ default_retry_config.max_retry_after)
          × (outcome_response_rejected ≡ outcome_response_rejected)
          × (default_retry_config.respect_retry_after ≡ true))
    × ((d : ℕ) → retry_after_delay no_dates (some busy) 20 ≡ some d → d ≤ max_int64)
select_retry_delay_lem_example =
    select_retry_delay_lem no_dates default_retry_config (pos 100) outcome_response_rejected
      (some busy) 20
