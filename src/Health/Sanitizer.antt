-- ===== src/Health/Sanitizer.antt =====
-- What the default sanitizer guarantees of every health value.
use clientkit.Prelude.{◌≤◌, ◌≡◌, refl, true, ℤ, pos, ◌≤ℤ◌, length, All, arith, subst, sym, ap}
use clientkit.Text.{Text}
use clientkit.Utf8.{runes}
use clientkit.Failure.{FailureClass, failure_none, valid_failure_class}
use clientkit.Health.Message.{keeps_rune}
use clientkit.Health.Message.Clean.{bounded_health_message_lem}
use clientkit.Health.{
  HealthState, health_unknown, health_healthy, health_degraded, health_unhealthy, health_other,
  Health, default_health_sanitizer, bound_state, bound_failure_class, bound_duration,
}

abbrev pub IsRecognized : HealthState → Type 0
IsRecognized (health_other state) = ⊥
IsRecognized _ = Unit

-- Bounded, free of control and format characters, and consistent.
pub record IsSanitary (h : Health) : Type 0 where
  pub recognized : IsRecognized h.state
  pub classified : valid_failure_class h.failure_class ≡ true
  pub healthy_no_failure : h.state ≡ health_healthy → h.failure_class ≡ failure_none
  pub elapsed : pos 0 ≤ℤ h.duration
  pub short : length h.message ≤ 256
  pub printable : All (λ r. keeps_rune r ≡ true) (runes h.message)

bound_state-IsRecognized :
    (s : HealthState) (h : Health) → h.state ≡ s → IsRecognized (bound_state s h).state
unfolding bound_state
bound_state-IsRecognized (health_other state) h e = tt
bound_state-IsRecognized health_unknown h e = subst IsRecognized (sym e) tt
bound_state-IsRecognized health_healthy h e = subst IsRecognized (sym e) tt
bound_state-IsRecognized health_degraded h e = subst IsRecognized (sym e) tt
bound_state-IsRecognized health_unhealthy h e = subst IsRecognized (sym e) tt

bound_state_id : (s : HealthState) (h : Health) → IsRecognized s → bound_state s h ≡ h
unfolding bound_state
bound_state_id (health_other state) h r = absurd r
bound_state_id health_unknown h r = refl
bound_state_id health_healthy h r = refl
bound_state_id health_degraded h r = refl
bound_state_id health_unhealthy h r = refl

bound_failure_class-valid :
    (s : HealthState) (c : FailureClass) → valid_failure_class (bound_failure_class s c) ≡ true
unfolding bound_failure_class valid_failure_class
bound_failure_class-valid health_healthy c = refl
bound_failure_class-valid _ c = ground arith

bound_failure_class_idem :
    (s : HealthState) (c : FailureClass)
    → bound_failure_class s (bound_failure_class s c) ≡ bound_failure_class s c
unfolding bound_failure_class valid_failure_class
bound_failure_class_idem health_healthy c = refl
bound_failure_class_idem _ c = ground arith

bound_failure_class_healthy :
    (s : HealthState) (c : FailureClass)
    → s ≡ health_healthy
    → bound_failure_class s c ≡ failure_none
unfolding bound_failure_class
bound_failure_class_healthy health_healthy c e = refl
bound_failure_class_healthy _ c e = cc

bound_duration_nonneg : (d : ℤ) → pos 0 ≤ℤ bound_duration d
unfolding bound_duration
bound_duration_nonneg d = ground arith

bound_duration_id : (d : ℤ) → pos 0 ≤ℤ d → bound_duration d ≡ d
unfolding bound_duration
bound_duration_id d h = ground arith

default_health_sanitizer-IsSanitary :
    (name : Text) (h : Health) → IsSanitary (default_health_sanitizer name h)
unfolding default_health_sanitizer
default_health_sanitizer-IsSanitary name h =
    let b = bound_state h.state h in
    let m = bounded_health_message_lem b.message in
    record {
      recognized = bound_state-IsRecognized h.state h refl;
      classified = bound_failure_class-valid b.state b.failure_class;
      healthy_no_failure = bound_failure_class_healthy b.state b.failure_class;
      elapsed = bound_duration_nonneg b.duration;
      short = m.0;
      printable = m.1;
    }

sanitizer_again :
    (name : Text) (h : Health)
    → default_health_sanitizer name (default_health_sanitizer name h)
      ≡ default_health_sanitizer name h
unfolding default_health_sanitizer
sanitizer_again name h =
    let b = bound_state h.state h in
    let t = default_health_sanitizer name h in
    rw (bound_state_id b.state t (bound_state-IsRecognized h.state h refl)) (λ i. record t {
      failure_class = bound_failure_class_idem b.state b.failure_class i;
      duration = bound_duration_id (bound_duration b.duration) (bound_duration_nonneg b.duration) i;
      message = (bounded_health_message_lem b.message).2 i;
    })

checked_at-bound_state :
    (s : HealthState) (h : Health) → (bound_state s h).checked_at ≡ h.checked_at
unfolding bound_state
checked_at-bound_state (health_other state) h = refl
checked_at-bound_state _ h = refl

-- Whatever it is given, the default sanitizer returns a sanitary value, which it would leave as
-- it is. It keeps the time of the check, and every state of the vocabulary.
pub default_health_sanitizer_lem :
    (name : Text) (h : Health)
    → let t = default_health_sanitizer name h in
      IsSanitary t
      × (default_health_sanitizer name t ≡ t)
      × (t.checked_at ≡ h.checked_at)
      × (IsRecognized h.state → t.state ≡ h.state)
unfolding default_health_sanitizer
default_health_sanitizer_lem name h = (
  default_health_sanitizer-IsSanitary name h,
  sanitizer_again name h,
  checked_at-bound_state h.state h,
  λ r. ap (λ (b : Health). b.state) (bound_state_id h.state h r),
)
