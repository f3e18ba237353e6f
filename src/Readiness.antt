-- ===== src/Readiness.antt =====
-- readiness.go: how a client's health bears on readiness.
use clientkit.Prelude.{Bool, true, false}
use clientkit.Text.{Text}
use clientkit.Health.{HealthState, health_healthy, health_degraded}

-- `readiness_unset` is the empty string; `readiness_other` is a text outside the vocabulary.
pub data ReadinessPolicy : Type 0 where
  readiness_unset : ReadinessPolicy
  readiness_required : ReadinessPolicy
  readiness_optional : ReadinessPolicy
  readiness_degraded_allowed : ReadinessPolicy
  readiness_informational : ReadinessPolicy
  readiness_other : Text → ReadinessPolicy

unfoldable pub normalize_readiness_policy : ReadinessPolicy → ReadinessPolicy
normalize_readiness_policy readiness_unset = readiness_optional
normalize_readiness_policy policy = policy

abbrev pub is_valid_normalized : ReadinessPolicy → Bool
is_valid_normalized readiness_unset = false
is_valid_normalized (readiness_other policy) = false
is_valid_normalized _ = true

unfoldable pub validate_readiness_policy : ReadinessPolicy → Bool
unfolding normalize_readiness_policy
validate_readiness_policy policy = is_valid_normalized (normalize_readiness_policy policy)

abbrev pub blocks_normalized : ReadinessPolicy → Bool
blocks_normalized readiness_required = true
blocks_normalized readiness_degraded_allowed = true
blocks_normalized _ = false

unfoldable pub blocks_readiness : ReadinessPolicy → Bool
unfolding normalize_readiness_policy
blocks_readiness policy = blocks_normalized (normalize_readiness_policy policy)

abbrev pub participates_normalized : ReadinessPolicy → Bool
participates_normalized readiness_informational = false
participates_normalized _ = true

unfoldable pub participates_in_readiness : ReadinessPolicy → Bool
unfolding normalize_readiness_policy
participates_in_readiness policy = participates_normalized (normalize_readiness_policy policy)

abbrev pub satisfied_normalized : ReadinessPolicy → HealthState → Bool
satisfied_normalized readiness_optional state = true
satisfied_normalized readiness_informational state = true
satisfied_normalized readiness_required health_healthy = true
satisfied_normalized readiness_required _ = false
satisfied_normalized readiness_degraded_allowed health_healthy = true
satisfied_normalized readiness_degraded_allowed health_degraded = true
satisfied_normalized readiness_degraded_allowed _ = false
satisfied_normalized _ state = false

unfoldable pub readiness_satisfied : ReadinessPolicy → HealthState → Bool
unfolding normalize_readiness_policy
readiness_satisfied policy state = satisfied_normalized (normalize_readiness_policy policy) state
