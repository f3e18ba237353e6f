-- ===== src/Http/Operation/Checked.antt =====
-- What an operation that does something has passed.
use clientkit.Prelude.{
  subst, ℕ, ◌≡◌, refl, Bool, true, false, Option, none, some, List, [], ◌∷◌, ◌++◌, map, Result, ok,
  err, arith, ◌⊎◌, inl, inr, ◌≢◌,
}
use clientkit.Text.{Text}
use clientkit.Fault.{RequestFault}
use clientkit.Http.Safety.{
  RetrySafety, RetryAuthorization, SafetyError, retry_authorization_for, normalized_http_method,
}
use clientkit.Http.Meeting.{
  Meeting, ExecutionResult, Policy, Effect, RequestBody, request_reader, request_without_body,
  request_no_body,
}
use clientkit.Http.Execution.{execute_attempts}
use clientkit.Http.Execution.Trace.{sent}
use clientkit.Http.Origin.{Url, Request, OriginPolicy, validate_request_origin}
use clientkit.Http.Origin.Guarded.{validate_request_origin_iff}
use clientkit.Http.Origin.Allowed.{IsAllowed}
use clientkit.Http.Operation.{
  OperationEvent, operation_started, operation_effect, operation_ended, request_body_closed,
  authorized, after_validation, check_url, check_operation, close_unattempted, close_request_body,
  policy_for, run_checked, do_operation,
}

module _ (equal_fold : Text → Text → Bool) where
  -- The request is there, allowed, and its repetition was decided.
  abbrev pub IsCleared :
      Bool → OriginPolicy → RetrySafety → Option Request → Request → RetryAuthorization → Type 0
  IsCleared configured policy safety request r authorization =
      (configured ≡ true)
      × (request ≡ some r)
      × IsAllowed equal_fold policy r
      × (retry_authorization_for (normalized_http_method r.method) safety ≡ ok authorization)

  authorized-ok :
      (a : Result SafetyError RetryAuthorization) (b : RetryAuthorization)
      → authorized a ≡ ok b
      → a ≡ ok b
  authorized-ok (ok a) b h = ground (arith, h)
  authorized-ok (err e) b h = cc

  after_validation-ok :
      (m : Result RequestFault (Unit {0})) (next : Result ExecutionResult RetryAuthorization)
      (a : RetryAuthorization)
      → after_validation m next ≡ ok a
      → (m ≡ ok tt) × (next ≡ ok a)
  after_validation-ok (ok u) next a h = (refl, h)
  after_validation-ok (err e) next a h = cc

  check_url-ok :
      (policy : OriginPolicy) (safety : RetrySafety) (r : Request) (url : Option Url)
      (a : RetryAuthorization)
      → check_url equal_fold policy safety r url ≡ ok a
      → (validate_request_origin equal_fold policy r ≡ ok tt)
        × (retry_authorization_for (normalized_http_method r.method) safety ≡ ok a)
  check_url-ok policy safety r none a h = cc
  check_url-ok policy safety r (some url) a h =
      let (valid, next) = after_validation-ok _ _ a h in (valid, authorized-ok _ a next)

  check_operation-IsCleared :
      (configured : Bool) (policy : OriginPolicy) (safety : RetrySafety) (request : Option Request)
      (a : RetryAuthorization)
      → check_operation equal_fold configured policy safety request ≡ ok a
      → (r : Request) × IsCleared configured policy safety request r a
  unfolding check_operation
  check_operation-IsCleared false policy safety request a h = cc
  check_operation-IsCleared true policy safety none a h = cc
  check_operation-IsCleared true policy safety (some r) a h =
      let (valid, decided) = check_url-ok policy safety r r.url a h in
      (r, (refl, refl, (validate_request_origin_iff equal_fold policy r).0 valid, decided))

  after_validation-attempts :
      (m : Result RequestFault (Unit {0})) (a : Result SafetyError RetryAuthorization)
      (result : ExecutionResult)
      → after_validation m (authorized a) ≡ err result
      → result.attempts ≡ []
  after_validation-attempts (err e) a result h = ground (arith, h)
  after_validation-attempts (ok u) (err e) result h = ground (arith, h)
  after_validation-attempts (ok u) (ok a) result h = cc

  refused_url :
      (policy : OriginPolicy) (safety : RetrySafety) (r : Request) (url : Option Url)
      (result : ExecutionResult)
      → check_url equal_fold policy safety r url ≡ err result
      → result.attempts ≡ []
  refused_url policy safety r none result h = ground (arith, h)
  refused_url policy safety r (some url) result h = after_validation-attempts _ _ result h

  refused_attempts :
      (configured : Bool) (policy : OriginPolicy) (safety : RetrySafety) (request : Option Request)
      (result : ExecutionResult)
      → check_operation equal_fold configured policy safety request ≡ err result
      → result.attempts ≡ []
  unfolding check_operation
  refused_attempts false policy safety request result h = ground (arith, h)
  refused_attempts true policy safety none result h = ground (arith, h)
  refused_attempts true policy safety (some r) result h = refused_url policy safety r r.url result h

  abbrev IsOpenBody : RequestBody → Type 0
  IsOpenBody (request_reader has_get_body) = Unit
  IsOpenBody _ = ⊥

  -- The request is there and has a body to close.
  abbrev pub HasOpenBody : Option Request → Type 0
  HasOpenBody none = ⊥
  HasOpenBody (some request) = IsOpenBody request.body

  close_request_body_lem :
      (request : Option Request)
      → let closing = close_request_body equal_fold request in
        (HasOpenBody request → closing ≡ request_body_closed ∷ [])
        × (¬ HasOpenBody request → closing ≡ [])
  unfolding close_request_body
  close_request_body_lem none = (λ h. absurd h, λ h. refl)
  close_request_body_lem (some request) = of_body request.body
    where
      of_body :
          (body : RequestBody)
          → let closing = close_request_body equal_fold (some (record request { body = body })) in
            (IsOpenBody body → closing ≡ request_body_closed ∷ [])
            × (¬ IsOpenBody body → closing ≡ [])
      of_body (request_reader has_get_body) = (λ h. refl, λ h. absurd (h tt))
      of_body request_without_body = (λ h. absurd h, λ h. refl)
      of_body request_no_body = (λ h. absurd h, λ h. refl)

  -- What an operation that ran did: `after` is what follows its end.
  abbrev pub IsRun :
      Option Request
      → List Effect × ExecutionResult
      → List OperationEvent × ExecutionResult
      → Type 0
  IsRun request (effects, outcome) (events, result) =
      (result ≡ outcome)
      × ((after : List OperationEvent) × (events
            ≡ operation_started ∷ map operation_effect effects ++ operation_ended result ∷ after)
          × (sent effects ≡ [] → HasOpenBody request → after ≡ request_body_closed ∷ [])
          × (sent effects ≢ [] → after ≡ [])
          × (¬ HasOpenBody request → after ≡ []))

  -- The events of an operation: those of a refusal, or those of a run that was cleared.
  abbrev pub Conduct :
      Bool
      → OriginPolicy
      → RetrySafety
      → Option Request
      → Policy
      → (ℕ → Meeting)
      → List OperationEvent × ExecutionResult
      → Type 0
  Conduct configured origin safety request policy meet (events, result) =
      ((HasOpenBody request → events ≡ request_body_closed ∷ [])
        × (¬ HasOpenBody request → events ≡ [])
        × (result.attempts ≡ []))
      ⊎ ((r : Request) × (authorization : RetryAuthorization) × IsCleared configured origin safety
            request r authorization
          × IsRun request
              (execute_attempts
                (record policy {
                  method = normalized_http_method r.method;
                  body = r.body;
                  authorization = authorization;
                })
                meet)
              (events, result))

  close_unattempted_lem :
      (request : Option Request) (numbers : List ℕ)
      → let after = close_unattempted equal_fold request numbers in
        (numbers ≡ [] → HasOpenBody request → after ≡ request_body_closed ∷ [])
        × (numbers ≢ [] → after ≡ [])
        × (¬ HasOpenBody request → after ≡ [])
  close_unattempted_lem request [] =
      let closing = close_request_body_lem request in
      (λ e. closing.0, λ e. absurd (e refl), closing.1)
  close_unattempted_lem request (number ∷ numbers) = (λ e. cc, λ e. refl, λ h. refl)

  -- The operation before its loop: a request that fails a check starts no operation, sends nothing and
  -- has its body closed, if it has one. A request that starts one is there, has an allowed target,
  -- and its repetition was decided for its method; the loop runs with that decision, that method and
  -- the request's body; the operation is reported once as started, before all effects of the loop,
  -- and once as ended with the loop's result, after them; and after that the body is closed if there
  -- is one and nothing was sent, and not otherwise.
  pub do_operation_lem :
      (configured : Bool) (origin : OriginPolicy) (safety : RetrySafety) (request : Option Request)
      (policy : Policy) (meet : ℕ → Meeting)
      → Conduct configured origin safety request policy meet
          (do_operation equal_fold configured origin safety request policy meet)
  unfolding do_operation
  do_operation_lem configured origin safety request policy meet =
      go (check_operation equal_fold configured origin safety request) refl
    where
      go :
          (checked : Result ExecutionResult RetryAuthorization)
          → check_operation equal_fold configured origin safety request ≡ checked
          → Conduct configured origin safety request policy meet
              (run_checked equal_fold request policy meet checked)
      go (ok authorization) h =
          let (r, cleared) =
            check_operation-IsCleared configured origin safety request authorization h in
          let effects =
            (execute_attempts (policy_for equal_fold request policy authorization) meet).0 in
          let unattempted = close_unattempted_lem request (sent effects) in
          let run : IsRun request
              (execute_attempts (policy_for equal_fold request policy authorization) meet)
              (run_checked equal_fold request policy meet (ok authorization)) =
            (
              refl,
              (
                close_unattempted equal_fold request (sent effects),
                refl,
                unattempted.0,
                unattempted.1,
                unattempted.2,
              ),
            ) in
          inr (
            r,
            authorization,
            cleared,
            subst
                (λ (q : Option Request).
                  IsRun request
                    (execute_attempts (policy_for equal_fold q policy authorization) meet)
                    (run_checked equal_fold request policy meet (ok authorization)))
                cleared.1 run,
          )
      go (err result) h =
          let closing = close_request_body_lem request in
          inl (closing.0, closing.1, refused_attempts configured origin safety request result h)
