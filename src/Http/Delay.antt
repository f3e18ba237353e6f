-- ===== src/Http/Delay.antt =====
-- The Retry-After part of httpclient/retry.go, and the choice of a delay in httpclient/do.go. The
-- policy's own delay is float64 arithmetic with a random term, and an argument here. A time is a
-- number of nanoseconds; http.ParseTime is a parameter.
pub mod Bounds
use clientkit.Prelude.{
  ℕ, ℤ, pos, ◌+◌, ◌-◌, ◌*◌, Bool, true, false, not, ◌&&◌, ◌||◌, Option, none, some, List, [], ◌∷◌,
  every, ltb, leb, ltb_ℤ, nat_eq, ◌==◌, max_int64, if◌then◌else◌,
}
use clientkit.Text.{Text, text_eq}
use clientkit.Text.Trim.{trim_space}
use clientkit.Http.Response.{Response}
use clientkit.Http.Outcome.{Outcome, outcome_response_rejected}
use clientkit.Http.Retry.{RetryConfig}

abbrev pub is_digit : ℕ → Bool
is_digit c = leb b'0' c && leb c b'9'

-- The value that strconv.ParseUint reads from digits, before its check for 64 bits.
unfoldable pub digits_value : ℕ → Text → ℕ
digits_value n [] = n
digits_value n (c ∷ s) = digits_value (n * 10 + (c - b'0')) s

abbrev pub nanoseconds_per_second : ℕ
nanoseconds_per_second = 1_000_000_000

-- uint64(maxDuration/time.Second); a value over 64 bits is above it too.
abbrev pub max_seconds : ℕ
max_seconds = 9_223_372_036

abbrev pub is_rejected : Outcome → Bool
is_rejected outcome_response_rejected = true
is_rejected _ = false

abbrev pub server_delay : RetryConfig → ℤ → Option ℕ → ℤ × Bool
server_delay cfg policy_delay none = (policy_delay, false)
server_delay cfg policy_delay (some delay) =
    let bounded =
      if ltb_ℤ cfg.max_retry_after (pos delay) then cfg.max_retry_after else pos delay in
    if ltb_ℤ policy_delay bounded then (bounded, true) else (policy_delay, false)

module _ (parse_time : Text → Option ℕ) where
  abbrev date_delay : ℕ → Option ℕ → Option ℕ
  date_delay received_at none = none
  date_delay received_at (some retry_at) =
      if not (ltb received_at retry_at)
      then some 0
      else if ltb (received_at + max_int64) retry_at
      then none
      else some (retry_at - received_at)

  unfoldable pub parse_retry_after : Text → ℕ → Option ℕ
  parse_retry_after value received_at =
      let trimmed = trim_space value in
      if trimmed == []
      then none
      else if every is_digit trimmed
      then (if ltb max_seconds (digits_value 0 trimmed)
          then none
          else some (digits_value 0 trimmed * nanoseconds_per_second))
      else date_delay received_at (parse_time trimmed)

  -- The loop of retryAfterDelay: the first value that can be read.
  unfoldable pub first_retry_after : List Text → ℕ → Option ℕ
  first_retry_after [] received_at = none
  first_retry_after (value ∷ values) received_at =
      let rest = first_retry_after values received_at in
      elim (parse_retry_after value received_at) [ some delay ↦ some delay | none ↦ rest ]

  unfoldable pub retry_after_delay : Option Response → ℕ → Option ℕ
  retry_after_delay none received_at = none
  retry_after_delay (some response) received_at = first_retry_after response.retry_after received_at

  -- The delay before the next attempt, and whether Retry-After set it.
  unfoldable pub select_retry_delay : RetryConfig → ℤ → Outcome → Option Response → ℕ → ℤ × Bool
  select_retry_delay cfg policy_delay outcome response received_at =
      if is_rejected outcome && cfg.respect_retry_after
      then server_delay cfg policy_delay (retry_after_delay response received_at)
      else (policy_delay, false)
