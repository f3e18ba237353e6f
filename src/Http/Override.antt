-- ===== src/Http/Override.antt =====
-- httpclient/execute_options.go and internal/configvalue/duration.go: how an operation overrides
-- the client's retry policy and timeouts.
pub mod Valid
use clientkit.Prelude.{
  ℤ, pos, Bool, not, ◌&&◌, ltb_ℤ, int_eq, ◌==◌, Result, ok, err, ◌>>=◌, ◌>>◌, if◌then◌else◌,
}
use clientkit.Http.Retry.{
  RetryConfig, RetryError, retry_set_and_disabled, validate_retry_config, retry_config_is_zero,
  no_retry_config, normalize_retry_config,
}

pub record ExecutionRetry : Type 0 where
  pub config : RetryConfig
  pub disable : Bool

pub data RetryPolicySource : Type 0 where
  source_unset : RetryPolicySource
  source_client : RetryPolicySource
  source_operation : RetryPolicySource

pub record ExecutionRetryPolicy : Type 0 where
  pub config : RetryConfig
  pub source : RetryPolicySource

abbrev validated_override : RetryConfig → Result RetryError ExecutionRetryPolicy
validated_override config =
    validate_retry_config config >> ok (record { config = config; source = source_operation })

unfoldable pub resolve_execution_retry :
    RetryConfig → ExecutionRetry → Result RetryError ExecutionRetryPolicy
resolve_execution_retry client_policy override =
    let has_custom_policy = not (retry_config_is_zero override.config) in
    if override.disable && has_custom_policy
    then err retry_set_and_disabled
    else if override.disable
    then ok (record { config = no_retry_config; source = source_operation })
    else if not has_custom_policy
    then ok (record { config = client_policy; source = source_client })
    else validated_override (normalize_retry_config override.config)

-- configvalue.Duration.
pub data DurationError : Type 0 where
  duration_negative : DurationError
  duration_set_and_disabled : DurationError

unfoldable pub duration : ℤ → Bool → ℤ → ℤ → Result DurationError ℤ
duration value disabled default_value disabled_value =
    if ltb_ℤ value (pos 0)
    then err duration_negative
    else if disabled && ltb_ℤ (pos 0) value
    then err duration_set_and_disabled
    else if disabled
    then ok disabled_value
    else if value == pos 0
    then ok default_value
    else ok value

pub record ExecutionTimeouts : Type 0 where
  pub timeout : ℤ
  pub disable_timeout : Bool
  pub attempt_timeout : ℤ
  pub disable_attempt_timeout : Bool

pub record ExecutionTimeoutPolicy : Type 0 where
  pub timeout : ℤ
  pub attempt_timeout : ℤ

unfoldable pub resolve_execution_timeouts :
    ℤ → ℤ → ExecutionTimeouts → Result DurationError ExecutionTimeoutPolicy
resolve_execution_timeouts client_timeout client_attempt_timeout overrides =
    duration overrides.timeout overrides.disable_timeout client_timeout (pos 0) >>= λ timeout.
    duration overrides.attempt_timeout overrides.disable_attempt_timeout client_attempt_timeout
      (pos 0)
    >>= λ attempt_timeout. ok (record { timeout = timeout; attempt_timeout = attempt_timeout })
