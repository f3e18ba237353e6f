-- ===== src/Check.antt =====
-- checkClientHealth and checkHealthSafely of opskit.go: one active check of one client, and what the
-- registry keeps of it. What the check meets is a CheckMeeting: the context's error at each point
-- that asks for it, what the checker does, and the clock.
pub mod Kept
pub mod Concurrent
pub mod Group
use clientkit.Prelude.{
  ℕ, Bool, true, false, Option, none, some, ◌++◌, ℤ, pos, Call, returned, panicked, if◌then◌else◌,
}
use clientkit.Text.{Text, codes}
use clientkit.Failure.{FailureClass, failure_policy, failure_canceled, failure_timeout}
use clientkit.Health.{Health, health_unknown, health_unhealthy}
use clientkit.Registry.{Registry, apply_health_check_outcome, sanitize_health_with_panic}

pub data ContextError : Type 0 where
  canceled : ContextError
  deadline_exceeded : ContextError

-- `slot_error` and `permit_error` are there if the context ended the wait for the client's slot or
-- for the registry's permit; the others are ctx.Err() after the checker, before the sanitizer and
-- after it.
pub record CheckMeeting : Type 0 where
  pub slot_error : Option ContextError
  pub permit_error : Option ContextError
  pub check : Call Health
  pub check_error : Option ContextError
  pub sanitize_error : Option ContextError
  pub accept_error : Option ContextError
  pub now : ℕ
  pub sanitized_at : ℕ

pub record CheckOutcome : Type 0 where
  pub health : Health
  pub decided_at : ℕ
  pub synthetic : Bool
  pub context_rejected : Bool

abbrev pub before_execution : Text
before_execution = codes "before execution"

abbrev pub before_acceptance : Text
before_acceptance = codes "before result acceptance"

unfoldable pub client_health_check_context_failure : ContextError → Text → ℕ → Health
client_health_check_context_failure deadline_exceeded phase now = record {
  state = health_unknown;
  failure_class = failure_timeout;
  checked_at = now;
  duration = pos 0;
  message = codes "client health check timed out " ++ phase;
}
client_health_check_context_failure canceled phase now = record {
  state = health_unknown;
  failure_class = failure_canceled;
  checked_at = now;
  duration = pos 0;
  message = codes "client health check canceled " ++ phase;
}

unfoldable pub client_health_check_context_outcome : ContextError → Text → ℕ → CheckOutcome
client_health_check_context_outcome error phase now = record {
  health = client_health_check_context_failure error phase now;
  decided_at = now;
  synthetic = true;
  context_rejected = true;
}

unfoldable pub panicked_outcome : ℕ → CheckOutcome
panicked_outcome now = record {
  health = record {
    state = health_unhealthy;
    failure_class = failure_policy;
    checked_at = now;
    duration = pos 0;
    message = codes "client health check panicked";
  };
  decided_at = now;
  synthetic = true;
  context_rejected = false;
}

-- checkHealthSafely after the permit: the call and the deferred recover.
abbrev pub checked_outcome : Call Health → Option ContextError → ℕ → CheckOutcome
checked_outcome check (some error) now =
    client_health_check_context_outcome error before_acceptance now
checked_outcome panicked none now = panicked_outcome now
checked_outcome (returned health) none now = record {
  health = health;
  decided_at = now;
  synthetic = false;
  context_rejected = false;
}

abbrev pub permitted_outcome : Option ContextError → CheckMeeting → CheckOutcome
permitted_outcome (some error) m = client_health_check_context_outcome error before_execution m.now
permitted_outcome none m = checked_outcome m.check m.check_error m.now

unfoldable pub check_health_safely : CheckMeeting → CheckOutcome
check_health_safely m = permitted_outcome m.permit_error m

-- The sanitizer's result in place of the checker's; a panic of the sanitizer makes it synthetic.
abbrev pub sanitized_outcome : CheckOutcome → ℕ → Health × Bool → CheckOutcome
sanitized_outcome outcome now (health, true) = record outcome {
  health = health;
  synthetic = true;
  decided_at = now;
}
sanitized_outcome outcome now (health, false) = record outcome { health = health }

abbrev pub accept_or : Option ContextError → ℕ → CheckOutcome → CheckOutcome
accept_or (some error) now outcome = client_health_check_context_outcome error before_acceptance now
accept_or none now outcome = outcome

-- The body of `if !outcome.contextRejected`.
unfoldable pub accepted_outcome : Registry → Text → CheckMeeting → CheckOutcome → CheckOutcome
accepted_outcome r name m outcome =
    if outcome.context_rejected
    then outcome
    else accept_or m.sanitize_error m.sanitized_at (
        accept_or m.accept_error m.sanitized_at (
          sanitized_outcome outcome m.sanitized_at
            (sanitize_health_with_panic r name outcome.health)))

-- The outcome of the check as a whole.
abbrev pub slot_outcome : Registry → Text → CheckMeeting → Option ContextError → CheckOutcome
slot_outcome r name m (some error) =
    client_health_check_context_outcome error before_execution m.now
slot_outcome r name m none = accepted_outcome r name m (check_health_safely m)

unfoldable pub check_outcome : Registry → Text → CheckMeeting → CheckOutcome
check_outcome r name m = slot_outcome r name m m.slot_error

-- The registry afterwards, and the health that the caller reports.
unfoldable pub check_client_health : Registry → Text → CheckMeeting → Registry × Health
check_client_health r name m =
    let outcome = check_outcome r name m in
    (
      apply_health_check_outcome r name outcome.health outcome.decided_at outcome.synthetic,
      outcome.health,
    )
