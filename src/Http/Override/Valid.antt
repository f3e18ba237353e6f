-- ===== src/Http/Override/Valid.antt =====
-- What an override can make of a client's policy.
use clientkit.Prelude.{
  ℤ, pos, ◌≡◌, sym, ap, subst, ◌∙◌, ◌≤ℤ◌, Bool, true, false, not, ◌&&◌, Result, ok, err, >>=-eq-ok,
  ◌>>=◌, arith, if◌then◌else◌, int_eq, ◌==◌,
}
use clientkit.Http.Retry.{
  RetryConfig, RetryError, validate_retry_config, retry_config_is_zero, normalize_retry_config,
  no_retry_config, default_retry_config, retry_set_and_disabled,
}
use clientkit.Http.Retry.Valid.{
  IsRetryPolicy, validate_retry_config-IsRetryPolicy, no_retry_config-valid,
}
use clientkit.Http.Override.{
  ExecutionRetry, ExecutionRetryPolicy, source_client, source_operation, validated_override,
  resolve_execution_retry, duration, ExecutionTimeouts, ExecutionTimeoutPolicy,
  resolve_execution_timeouts,
}

validated_override-ok :
    (config : RetryConfig) (policy : ExecutionRetryPolicy)
    → validated_override config ≡ ok policy
    → (validate_retry_config config ≡ ok tt)
      × (policy ≡ record { config = config; source = source_operation })
validated_override-ok config policy h =
    let (u, valid, same) =
      >>=-eq-ok (validate_retry_config config)
        (λ _. ok (record { config = config; source = source_operation })) h in
    (valid, ground (arith, same))

-- resolveExecutionRetry with its two tests as arguments.
abbrev choose : Bool → Bool → RetryConfig → RetryConfig → Result RetryError ExecutionRetryPolicy
choose disable zero client_policy custom =
    if disable && not zero
    then err retry_set_and_disabled
    else if disable
    then ok (record { config = no_retry_config; source = source_operation })
    else if not (not zero)
    then ok (record { config = client_policy; source = source_client })
    else validated_override (if zero then default_retry_config else custom)

choose-ok :
    (disable zero : Bool) (client_policy custom : RetryConfig) (policy : ExecutionRetryPolicy)
    → IsRetryPolicy client_policy
    → choose disable zero client_policy custom ≡ ok policy
    → IsRetryPolicy policy.config
      × (policy.config
          ≡ (if disable then no_retry_config else (if zero then client_policy else custom)))
choose-ok true true client_policy custom policy valid h =
    let same : no_retry_config ≡ policy.config = ground (arith, h) in
    (
      subst IsRetryPolicy same
          (validate_retry_config-IsRetryPolicy no_retry_config no_retry_config-valid),
      sym same,
    )
choose-ok true false client_policy custom policy valid h = cc
choose-ok false true client_policy custom policy valid h =
    let same : client_policy ≡ policy.config = ground (arith, h) in
    (subst IsRetryPolicy same valid, sym same)
choose-ok false false client_policy custom policy valid h =
    let (checked, is) = validated_override-ok custom policy h in
    let same : policy.config ≡ custom = ap (λ (p : ExecutionRetryPolicy). p.config) is in
    (subst IsRetryPolicy (sym same) (validate_retry_config-IsRetryPolicy custom checked), same)

-- The policy that an operation runs under is one that validation accepts, as long as the client's
-- is. It is the client's own unless the operation disables retries, which leaves one attempt, or
-- brings a policy of its own, which then replaces the client's as a whole.
pub resolve_execution_retry_lem :
    (client_policy : RetryConfig) (override : ExecutionRetry) (policy : ExecutionRetryPolicy)
    → IsRetryPolicy client_policy
    → resolve_execution_retry client_policy override ≡ ok policy
    → IsRetryPolicy policy.config
      × (policy.config ≡ (
          if override.disable
          then no_retry_config
          else (if retry_config_is_zero override.config then client_policy else override.config)))
unfolding resolve_execution_retry normalize_retry_config
resolve_execution_retry_lem client_policy override policy valid h =
    choose-ok override.disable (retry_config_is_zero override.config) client_policy override.config
      policy valid h

duration-ok :
    (value : ℤ) (disabled : Bool) (default_value disabled_value d : ℤ)
    → duration value disabled default_value disabled_value ≡ ok d
    → (d ≡ (if disabled then disabled_value else (if value == pos 0 then default_value else value)))
      × (pos 0 ≤ℤ default_value → pos 0 ≤ℤ disabled_value → pos 0 ≤ℤ d)
unfolding duration
duration-ok value disabled default_value disabled_value d h = ground arith

-- A timeout of an operation is the client's unless the operation names a positive one or disables
-- it, for the operation and for each attempt independently, and neither is ever negative.
pub resolve_execution_timeouts_lem :
    (client_timeout client_attempt_timeout : ℤ) (overrides : ExecutionTimeouts)
    (policy : ExecutionTimeoutPolicy)
    → pos 0 ≤ℤ client_timeout
    → pos 0 ≤ℤ client_attempt_timeout
    → resolve_execution_timeouts client_timeout client_attempt_timeout overrides ≡ ok policy
    → (policy.timeout ≡ (
        if overrides.disable_timeout
        then pos 0
        else (if overrides.timeout == pos 0 then client_timeout else overrides.timeout)))
      × (policy.attempt_timeout ≡ (
          if overrides.disable_attempt_timeout
          then pos 0
          else (if overrides.attempt_timeout == pos 0
              then client_attempt_timeout
              else overrides.attempt_timeout)))
      × (pos 0 ≤ℤ policy.timeout)
      × (pos 0 ≤ℤ policy.attempt_timeout)
unfolding resolve_execution_timeouts
resolve_execution_timeouts_lem client_timeout client_attempt_timeout overrides policy c1 c2 h =
    let (timeout, e1, rest) =
      >>=-eq-ok (duration overrides.timeout overrides.disable_timeout client_timeout (pos 0))
        (λ timeout.
          duration overrides.attempt_timeout overrides.disable_attempt_timeout
            client_attempt_timeout (pos 0)
          >>= λ attempt_timeout.
              ok (record { timeout = timeout; attempt_timeout = attempt_timeout }))
        h in
    let (attempt_timeout, e2, same) =
      >>=-eq-ok
        (duration overrides.attempt_timeout overrides.disable_attempt_timeout client_attempt_timeout
          (pos 0))
        (λ attempt_timeout. ok (record { timeout = timeout; attempt_timeout = attempt_timeout }))
        rest in
    let total =
      duration-ok overrides.timeout overrides.disable_timeout client_timeout (pos 0) timeout e1 in
    let each =
      duration-ok overrides.attempt_timeout overrides.disable_attempt_timeout client_attempt_timeout
        (pos 0) attempt_timeout e2 in
    let t : timeout ≡ policy.timeout = ground (arith, same) in
    let a : attempt_timeout ≡ policy.attempt_timeout = ground (arith, same) in
    (
      sym t ∙ total.0,
      sym a ∙ each.0,
      subst (λ d. pos 0 ≤ℤ d) t (total.1 c1 (omega arith)),
      subst (λ d. pos 0 ≤ℤ d) a (each.1 c2 (omega arith)),
    )
