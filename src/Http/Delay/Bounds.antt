-- ===== src/Http/Delay/Bounds.antt =====
-- The bounds of a delay that a server may ask for.
use clientkit.Prelude.{
  ℕ, ℤ, ◌≡◌, refl, ◌≤◌, ◌≤ℤ◌, true, false, ◌&&◌, Option, none, some, List, [], ◌∷◌, every,
  max_int64, arith, Bool-cases, Option-cases, inl, inr, ◌==◌,
}
use clientkit.Text.{Text, text_eq}
use clientkit.Text.Trim.{trim_space}
use clientkit.Http.Response.{Response}
use clientkit.Http.Outcome.{Outcome, outcome_response_rejected}
use clientkit.Http.Retry.{RetryConfig}
use clientkit.Http.Delay.{
  is_digit, date_delay, parse_retry_after, first_retry_after, retry_after_delay, is_rejected,
  server_delay, select_retry_delay,
}

server_delay-bound :
    (cfg : RetryConfig) (policy_delay : ℤ) (delay : Option ℕ)
    → let (chosen, by_server) = server_delay cfg policy_delay delay in
      (policy_delay ≤ℤ chosen)
      × (by_server ≡ false → chosen ≡ policy_delay)
      × (by_server ≡ true → chosen ≤ℤ cfg.max_retry_after)
server_delay-bound cfg policy_delay none = (omega arith, λ _. refl, λ h. cc)
server_delay-bound cfg policy_delay (some delay) = ground arith

is_rejected_sound :
    (outcome : Outcome) → is_rejected outcome ≡ true → outcome ≡ outcome_response_rejected
is_rejected_sound outcome h = ground arith

module _ (parse_time : Text → Option ℕ) where
  date_delay-bound :
      (received_at : ℕ) (date : Option ℕ) (d : ℕ)
      → date_delay parse_time received_at date ≡ some d
      → d ≤ max_int64
  date_delay-bound received_at none d h = cc
  date_delay-bound received_at (some retry_at) d h = ground arith

  parse_retry_after-bound :
      (value : Text) (received_at d : ℕ)
      → parse_retry_after parse_time value received_at ≡ some d
      → d ≤ max_int64
  unfolding parse_retry_after
  parse_retry_after-bound value received_at d h = elim (Bool-cases (trim_space value == [])) [
    | inl e ↦ ground arith
    | inr e ↦ elim (Bool-cases (every is_digit (trim_space value))) [
      | inl digits ↦ ground arith
      | inr other ↦ date_delay-bound received_at (parse_time (trim_space value)) d (ground arith)
    ]
  ]

  first_retry_after-bound :
      (values : List Text) (received_at d : ℕ)
      → first_retry_after parse_time values received_at ≡ some d
      → d ≤ max_int64
  unfolding first_retry_after
  first_retry_after-bound [] received_at d h = cc
  first_retry_after-bound (value ∷ values) received_at d h =
      elim (Option-cases (parse_retry_after parse_time value received_at)) [
        | inl e ↦ first_retry_after-bound values received_at d (ground arith)
        | inr (found, e) ↦ parse_retry_after-bound value received_at d (ground arith)
      ]

  retry_after_delay-bound :
      (response : Option Response) (received_at d : ℕ)
      → retry_after_delay parse_time response received_at ≡ some d
      → d ≤ max_int64
  unfolding retry_after_delay
  retry_after_delay-bound none received_at d h = cc
  retry_after_delay-bound (some response) received_at d h =
      first_retry_after-bound response.retry_after received_at d h

  -- The delay before an attempt is never shorter than the policy's own, and Retry-After raises it
  -- to at most the policy's bound; only a rejected response under a policy that respects
  -- Retry-After can raise it. A delay that is read from the header fits a duration.
  pub select_retry_delay_lem :
      (cfg : RetryConfig) (policy_delay : ℤ) (outcome : Outcome) (response : Option Response)
      (received_at : ℕ)
      → let (delay, by_server) =
          select_retry_delay parse_time cfg policy_delay outcome response received_at in
        (policy_delay ≤ℤ delay)
        × (by_server ≡ false → delay ≡ policy_delay)
        × (by_server ≡ true
            → (delay ≤ℤ cfg.max_retry_after)
              × (outcome ≡ outcome_response_rejected)
              × (cfg.respect_retry_after ≡ true))
        × ((d : ℕ) → retry_after_delay parse_time response received_at ≡ some d → d ≤ max_int64)
  unfolding select_retry_delay retry_after_delay
  select_retry_delay_lem cfg policy_delay outcome response received_at =
      let server =
        server_delay-bound cfg policy_delay (retry_after_delay parse_time response received_at) in
      elim (Bool-cases (is_rejected outcome && cfg.respect_retry_after)) [
        | inl e ↦
            rw (e, select_retry_delay)
              (
                server.0,
                server.1,
                λ h. (server.2 h, is_rejected_sound outcome (ground arith), ground arith),
                retry_after_delay-bound response received_at,
              )
        | inr e ↦
            rw (e, select_retry_delay)
              (omega arith, λ _. refl, λ h. cc, retry_after_delay-bound response received_at)
      ]
