-- ===== src/Health.antt =====
-- health.go: health values and the sanitizers that bound them. A time is a number of nanoseconds
-- from Go's zero time, so IsZero is a test for 0 and UTC, which keeps the instant, is left out.
pub mod Message
pub mod Sanitizer
use clientkit.Prelude.{
  ℕ, Bool, true, false, Option, none, some, ℤ, pos, ltb_ℤ, Call, returned, panicked, if◌then◌else◌,
}
use clientkit.Text.{Text, codes}
use clientkit.Failure.{FailureClass, failure_none, failure_policy, valid_failure_class}
use Message.{bounded_health_message}

pub data HealthState : Type 0 where
  health_unknown : HealthState
  health_healthy : HealthState
  health_degraded : HealthState
  health_unhealthy : HealthState
  health_other : Text → HealthState

abbrev pub is_healthy_state : HealthState → Bool
is_healthy_state health_healthy = true
is_healthy_state _ = false

pub record Health : Type 0 where
  pub state : HealthState
  pub failure_class : FailureClass
  pub checked_at : ℕ
  pub duration : ℤ
  pub message : Text

unfoldable pub state_unavailable_message : Text
state_unavailable_message = codes "client health state unavailable"

unfoldable pub sanitizer_failed_message : Text
sanitizer_failed_message = codes "client health sanitizer failed"

-- The first switch of DefaultHealthSanitizer.
unfoldable pub bound_state : HealthState → Health → Health
bound_state (health_other state) health = record health {
  state = health_unknown;
  failure_class = failure_policy;
  message = state_unavailable_message;
}
bound_state _ health = health

-- The if and else if after it.
unfoldable pub bound_failure_class : HealthState → FailureClass → FailureClass
bound_failure_class health_healthy class = failure_none
bound_failure_class _ class = if valid_failure_class class then class else failure_policy

unfoldable pub bound_duration : ℤ → ℤ
bound_duration d = if ltb_ℤ d (pos 0) then pos 0 else d

unfoldable pub default_health_sanitizer : Text → Health → Health
unfolding bound_state bound_failure_class bound_duration
default_health_sanitizer name health =
    let bounded = bound_state health.state health in
    record bounded {
      failure_class = bound_failure_class bounded.state bounded.failure_class;
      duration = bound_duration bounded.duration;
      message = bounded_health_message bounded.message;
    }

-- A configured sanitizer is code of the caller, and may panic.
abbrev pub HealthSanitizer : Type 0
HealthSanitizer = Text → Health → Call Health

abbrev pub sanitizer_failure : Health
sanitizer_failure = record {
  state = health_unknown;
  failure_class = failure_policy;
  checked_at = 0;
  duration = pos 0;
  message = sanitizer_failed_message;
}

abbrev pub contain_sanitizer : Call Health → Health × Bool
contain_sanitizer (returned health) = (health, false)
contain_sanitizer panicked = (sanitizer_failure, true)

unfoldable pub sanitize_health_safely_with_panic :
    Text → Health → Option HealthSanitizer → Bool → Health × Bool
sanitize_health_safely_with_panic name health none false =
    (default_health_sanitizer name health, false)
sanitize_health_safely_with_panic name health none true = (health, false)
sanitize_health_safely_with_panic name health (some sanitizer) disabled =
    contain_sanitizer (sanitizer name health)

abbrev pub sanitize_health_safely : Text → Health → Option HealthSanitizer → Bool → Health
sanitize_health_safely name health sanitizer disabled =
    (sanitize_health_safely_with_panic name health sanitizer disabled).0
