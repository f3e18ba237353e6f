-- ===== src/Check/Kept.antt =====
-- What a check reports and what the registry keeps.
use clientkit.Prelude.{
  ◌≡◌, Bool, true, false, ◌||◌, Option, none, some, Call, returned, panicked, recovered,
}
use clientkit.Text.{Text}
use clientkit.Failure.{FailureClass, failure_canceled, failure_timeout}
use clientkit.Health.{Health, health_unknown}
use clientkit.Registry.{Registry, sanitize_health_with_panic}
use clientkit.Check.{
  ContextError, canceled, deadline_exceeded, CheckMeeting, CheckOutcome, panicked_outcome,
}

abbrev pub first : Option ContextError → Option ContextError → Option ContextError
first none later = later
first (some error) later = some error

-- The first error that the context gives at a point that asks for it.
abbrev pub first_error : CheckMeeting → Option ContextError
first_error m =
    first m.slot_error
      (first m.permit_error (first m.check_error (first m.sanitize_error m.accept_error)))

abbrev pub class_of : ContextError → FailureClass
class_of canceled = failure_canceled
class_of deadline_exceeded = failure_timeout

-- A check that the context cut short.
abbrev pub IsCutShort : ContextError → CheckOutcome → Type 0
IsCutShort error outcome =
    (outcome.synthetic ≡ true)
    × (outcome.health.state ≡ health_unknown)
    × (outcome.health.failure_class ≡ class_of error)

-- The checker's health, or what stands for it if it panicked.
abbrev pub checker_health : CheckMeeting → Health
checker_health m = recovered (panicked_outcome m.now).health m.check

abbrev pub has_panicked : Call Health → Bool
has_panicked (returned health) = false
has_panicked panicked = true

abbrev pub IsCompleted : Registry → Text → CheckMeeting → CheckOutcome → Type 0
IsCompleted r name m outcome =
    (outcome.health ≡ (sanitize_health_with_panic r name (checker_health m)).0)
    × (outcome.synthetic
        ≡ (has_panicked m.check || (sanitize_health_with_panic r name (checker_health m)).1))

-- The two ways that a check ends.
abbrev pub Verdict : Registry → Text → CheckMeeting → Option ContextError → CheckOutcome → Type 0
Verdict r name m none outcome = IsCompleted r name m outcome
Verdict r name m (some error) outcome = IsCutShort error outcome
