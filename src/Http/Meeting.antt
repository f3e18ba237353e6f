-- ===== src/Http/Meeting.antt =====
-- One attempt of Client.do of httpclient/do.go: what it meets, which request it sends, and how its
-- response and error are classified.
use clientkit.Prelude.{
  ℕ, ℤ, Bool, true, false, not, Option, none, some, List, ◌∷◌, nat_eq, ◌==◌, if◌then◌else◌,
}
use clientkit.Text.{Text, codes}
use clientkit.Failure.{FailureClass, failure_none, failure_policy, failure_remote_response}
use clientkit.Fault.{Error, plain, other_fault, transport_no_response}
use clientkit.Http.Response.{Response, is_nil}
use clientkit.Http.Outcome.{
  Outcome, outcome_success, outcome_response_rejected, outcome_execution_error, stage_transport,
  classify_failure, classify_outcome,
}
use clientkit.Http.Safety.{RetryAuthorization}
use clientkit.Http.Classifier.{
  ResponseClassifier, ResponseClassification, response_classified_accepted,
  response_classified_rejected, classify_safely,
}
use clientkit.Http.Retry.{RetryConfig}

-- The body of a request: none, http.NoBody, or a reader with or without GetBody.
pub data RequestBody : Type 0 where
  request_without_body : RequestBody
  request_no_body : RequestBody
  request_reader : (has_get_body : Bool) → RequestBody

unfoldable pub request_body_is_replayable : RequestBody → Bool
request_body_is_replayable (request_reader has_get_body) = has_get_body
request_body_is_replayable _ = true

-- What one round of the loop meets, in the order in which it asks: the operation's context, the
-- attempt's context, GetBody (whether it returned a body, and its error) with the context after it, the exchange of httpClient.Do with the
-- attempt's context after it and after the classifier, the operation's context again, the delay of
-- the policy, and the wait.
pub record Meeting : Type 0 where
  pub operation_error : Option Error
  pub attempt_error : Option Error
  pub replayed_body : Bool
  pub replay_error : Option Error
  pub replay_context_error : Option Error
  pub started_at : ℕ
  pub ended_at : ℕ
  pub duration : ℤ
  pub response : Option Response
  pub exchange_error : Option Error
  pub exchange_context_error : Option Error
  pub classified_context_error : Option Error
  pub operation_error_after : Option Error
  pub policy_delay : ℤ
  pub wait_error : Option Error

pub record Attempt : Type 0 where
  pub number : ℕ
  pub outcome : Outcome
  pub failure_class : FailureClass
  pub status_code : ℤ
  pub started_at : ℕ
  pub duration : ℤ
  pub error : Option Error

-- Result without StartedAt and Duration, which are readings of the clock.
pub record ExecutionResult : Type 0 where
  pub outcome : Outcome
  pub failure_class : FailureClass
  pub status_code : ℤ
  pub response : Option Response
  pub attempts : List Attempt
  pub error : Option Error

pub data Effect : Type 0 where
  -- httpClient.Do.
  send : ℕ → Effect
  close_replayed_body : Effect
  -- closeResponse and drainAndCloseResponse.
  close_response : ℕ → Effect
  drain_response : ℕ → Effect
  observe_attempt : Attempt → Effect
  observe_retry : (after_attempt : ℕ) (delay : ℤ) (by_server : Bool) (cause : Outcome) → Effect
  wait : ℤ → Effect
  cancel_attempt : ℕ → Effect
  cancel_operation : Effect
  -- attachResponseLifecycle: both contexts are released when the body is done with.
  attach_lifecycle : ℕ → Effect

-- What the loop reads and does not change.
pub record Policy : Type 0 where
  pub parse_time : Text → Option ℕ
  pub method : Text
  pub body : RequestBody
  pub authorization : RetryAuthorization
  pub classifier : ResponseClassifier
  pub retry : RetryConfig

-- fmt.Errorf with %w.
abbrev wrapped : Text → Error → Error
wrapped text error = record { fault = other_fault text; net_timeout = none } ∷ error

-- requestForAttempt: the error, and whether a body that GetBody returned is closed.
abbrev replay : Meeting → Option Error × Bool
replay m = elim m.replay_context_error [
  | some error ↦ (some error, m.replayed_body)
  | none ↦ elim m.replay_error [
    | some error ↦ (some (wrapped (codes "recreate request body") error), m.replayed_body)
    | none ↦ (
      if m.replayed_body then none else some (plain (other_fault (codes "GetBody returned nil"))),
      false,
    )
  ]
]

unfoldable pub request_for_attempt : RequestBody → ℕ → Meeting → Option Error × Bool
request_for_attempt body number m = elim m.attempt_error [
  | some error ↦ (some error, false)
  | none ↦ if number == 1 then (none, false) else elim body [
    | request_reader has_get_body ↦
        if has_get_body
        then replay m
        else (some (plain (other_fault (codes "request body cannot be replayed for retry"))), false)
    | _ ↦ (none, false)
  ]
]

-- The response and the error of an attempt, with what was done to the response, as they are after
-- the context was checked and before the classifier is asked.
pub record Exchange : Type 0 where
  pub response : Option Response
  pub error : Option Error
  pub closed : Bool

abbrev no_response_error : Option Response → Option Error → Option Error
no_response_error none none = some (plain transport_no_response)
no_response_error response error = error

unfoldable pub exchange : Meeting → Exchange
exchange m = elim m.exchange_context_error [
  | some error ↦ record { response = none; error = some error; closed = not (is_nil m.response) }
  | none ↦ record {
    response = m.response;
    error = no_response_error m.response m.exchange_error;
    closed = false;
  }
]

-- The outcome of an attempt: the exchange, and the classifier where there is a response to classify.
pub record Verdict : Type 0 where
  pub outcome : Outcome
  pub failure_class : FailureClass
  pub exchange : Exchange

abbrev pub classified : ResponseClassification → Outcome × FailureClass
classified response_classified_accepted = (outcome_success, failure_none)
classified response_classified_rejected = (outcome_response_rejected, failure_remote_response)
classified _ = (outcome_execution_error, failure_policy)

abbrev pub unclassified : Exchange → Verdict
unclassified x = record {
  outcome = classify_outcome x.response x.error;
  failure_class = classify_failure stage_transport x.response x.error;
  exchange = x;
}

abbrev pub verdict_of :
    ResponseClassifier → Exchange → Option Response → Option Error → Option Error → Verdict
verdict_of classifier x (some response) none none =
    let (outcome, class) = classified (classify_safely classifier (some response)) in
    record { outcome = outcome; failure_class = class; exchange = x }
verdict_of classifier x (some response) none (some error) =
    unclassified (record { response = none; error = some error; closed = true })
verdict_of classifier x response error context_error = unclassified x

unfoldable pub verdict : ResponseClassifier → Exchange → Option Error → Verdict
verdict classifier x context_error = verdict_of classifier x x.response x.error context_error
