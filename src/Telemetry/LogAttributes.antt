-- ===== src/Telemetry/LogAttributes.antt =====
-- slogobserver/attributes.go and the attributes that slogobserver/observer.go gives each event.
use clientkit.Prelude.{
  Bool, true, false, ◌&&◌, Option, none, some, List, [], ◌∷◌, nat_eq, ℤ, pos, ltb_ℤ, if◌then◌else◌,
}
use clientkit.Text.{Text, text_eq, codes}
use clientkit.Failure.{FailureClass, failure_none, is_failure_none}
use clientkit.Fault.{Error}
use clientkit.Projection.{class_text, state_text}
use clientkit.Observer.{OperationEndEvent, AttemptEvent, RetryEvent, HealthEvent}
use clientkit.Telemetry.Attributes.{event_attributes}

pub data LogValue : Type 0 where
  log_string : Text → LogValue
  log_bool : Bool → LogValue
  log_int : ℤ → LogValue
  log_duration : ℤ → LogValue
  log_error : Error → LogValue

pub data LogAttr : Type 0 where
  log_field : Text → LogValue → LogAttr
  log_group : Text → List (Text × Text) → LogAttr

-- addString and addDuration, where the attributes that follow are given.
unfoldable pub add_string : Text → Text → List LogAttr → List LogAttr
add_string key [] rest = rest
add_string key value rest = log_field key (log_string value) ∷ rest

unfoldable pub add_duration : Text → ℤ → List LogAttr → List LogAttr
add_duration key value rest =
    if ltb_ℤ value (pos 0) then rest else log_field key (log_duration value) ∷ rest

unfoldable pub add_failure_class : FailureClass → List LogAttr → List LogAttr
add_failure_class failure_none rest = rest
add_failure_class class rest =
    log_field (codes "failure_class") (log_string (class_text class)) ∷ rest

unfoldable pub add_event_attribute_group : List (Text × Text) → List LogAttr
add_event_attribute_group [] = []
add_event_attribute_group attributes = log_group (codes "attributes") attributes ∷ []

abbrev pub add_positive : Text → ℤ → List LogAttr → List LogAttr
add_positive key n rest = if ltb_ℤ (pos 0) n then log_field key (log_int n) ∷ rest else rest

abbrev pub add_error : Bool → Option Error → List LogAttr → List LogAttr
add_error true (some error) rest = log_field (codes "error") (log_error error) ∷ rest
add_error _ _ rest = rest

abbrev pub is_nil_error : Option Error → Bool
is_nil_error none = true
is_nil_error (some error) = false

unfoldable pub operation_succeeded : OperationEndEvent → Bool
operation_succeeded event =
    event.succeeded && is_failure_none event.failure_class && is_nil_error event.error

unfoldable pub attempt_succeeded : AttemptEvent → Bool
attempt_succeeded event =
    event.succeeded && is_failure_none event.failure_class && is_nil_error event.error

abbrev pub event_name : Text → LogAttr
event_name name = log_field (codes "event") (log_string name)

unfoldable pub attempt_attributes : Bool → AttemptEvent → List LogAttr
attempt_attributes details event =
    event_name (codes "attempt_completed")
    ∷ (add_string (codes "client") event.client (
        add_string (codes "protocol") event.protocol (
          add_string (codes "operation") event.operation (
            add_string (codes "outcome") event.outcome (
              log_field (codes "succeeded") (log_bool (attempt_succeeded event))
              ∷ add_failure_class event.failure_class (
                  add_positive (codes "attempt") event.number (
                    add_duration (codes "duration") event.duration (
                      add_error details event.error
                        (add_event_attribute_group (event_attributes event.attributes))))))))))

unfoldable pub retry_attributes : RetryEvent → List LogAttr
retry_attributes event =
    event_name (codes "retry_scheduled")
    ∷ (add_string (codes "client") event.client (
        add_string (codes "protocol") event.protocol (
          add_string (codes "operation") event.operation (
            add_failure_class event.failure_class (
              add_positive (codes "after_attempt") event.after_attempt (
                add_string (codes "cause") event.cause (
                  add_duration (codes "delay") event.delay
                    (add_event_attribute_group (event_attributes event.attributes)))))))))

unfoldable pub health_attributes : HealthEvent → List LogAttr
health_attributes event =
    event_name (codes "health_check_completed")
    ∷ (add_string (codes "client") event.client (
        add_string (codes "protocol") event.protocol (
          add_string (codes "health_state") (state_text event.state) (
            add_failure_class event.failure_class (
              add_duration (codes "duration") event.duration (
                add_string (codes "message") event.message
                  (add_event_attribute_group (event_attributes event.attributes))))))))

abbrev pub text_or : Text → Text → Text
text_or [] default = default
text_or text default = text

abbrev pub attributes_or : List (Text × Text) → List (Text × Text) → List (Text × Text)
attributes_or [] default = default
attributes_or attributes default = attributes
