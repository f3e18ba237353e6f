-- ===== src/Examples/Values.antt =====
-- Examples for names, health, readiness and what opskit is shown.
use clientkit.Prelude.{
  ℕ, ◌≡◌, refl, Bool, true, false, none, [], ◌∷◌, All, every, length, ◌≤◌, ◌↔◌, ℤ, negsuc,
}
use clientkit.Text.{Text, codes}
use clientkit.Utf8.{runes}
use clientkit.Identity.{validate_client_name}
use clientkit.Identity.Grammar.{IsIdentifier, validate_client_name_iff}
use clientkit.Failure.{failure_tls}
use clientkit.Health.{
  Health, health_degraded, health_unhealthy, health_other, default_health_sanitizer,
}
use clientkit.Health.Message.{keeps_rune, bounded_health_message}
use clientkit.Health.Message.Clean.{bounded_health_message_lem}
use clientkit.Health.Sanitizer.{IsRecognized, IsSanitary, default_health_sanitizer_lem}
use clientkit.Readiness.{
  readiness_required, readiness_optional, validate_readiness_policy, readiness_satisfied,
  normalize_readiness_policy,
}
use clientkit.Snapshot.{ClientSnapshot}
use clientkit.Opskit.{Opskit}
use clientkit.Projection.{status, readiness, check_verdict}
use clientkit.Projection.Agreement.{
  satisfied, status_verdict, status-readiness_agree, check_verdict-satisfied,
}

validate_client_name_iff_example :
    (validate_client_name (codes "a..b") ≡ none) ↔ IsIdentifier 64 (codes "a..b")
validate_client_name_iff_example = validate_client_name_iff (codes "a..b")

-- A message with a line feed and a two-byte rune.
abbrev raw_message : Text
raw_message = 10 ∷ 0xC3 ∷ 0xA9 ∷ codes "tat"

bounded_health_message_lem_example :
    (length (bounded_health_message raw_message) ≤ 256)
    × All (λ r. keeps_rune r ≡ true) (runes (bounded_health_message raw_message))
    × (bounded_health_message (bounded_health_message raw_message)
        ≡ bounded_health_message raw_message)
bounded_health_message_lem_example = bounded_health_message_lem raw_message

abbrev raw_health : Health
raw_health = record {
  state = health_other (codes "fine");
  failure_class = failure_tls;
  checked_at = 3;
  duration = negsuc 4;
  message = raw_message;
}

default_health_sanitizer_lem_example :
    let t = default_health_sanitizer (codes "billing") raw_health in
    IsSanitary t
    × (default_health_sanitizer (codes "billing") t ≡ t)
    × (t.checked_at ≡ raw_health.checked_at)
    × (IsRecognized raw_health.state → t.state ≡ raw_health.state)
default_health_sanitizer_lem_example = default_health_sanitizer_lem (codes "billing") raw_health

-- An opskit whose states and statuses are numbers and texts.
abbrev pub counting_opskit : Opskit
counting_opskit = record {
  State = ℕ;
  state_ready = 0;
  state_degraded = 1;
  state_not_ready = 2;
  state_unknown = 3;
  state_failed = 4;
  ReadinessImpact = Bool;
  impact_blocking = true;
  impact_non_blocking = false;
  Status = ℕ × Text;
  not_ready_status = λ text. (2, text);
  unknown_status = λ text. (3, text);
  degraded_status = λ text. (1, text);
  ready_status = λ text. (0, text);
  Duration = ℤ;
  new_duration = λ d. d;
}

abbrev failing_client : ClientSnapshot
failing_client = record {
  name = codes "billing";
  protocol = codes "http";
  readiness_policy = readiness_required;
  health = record raw_health { state = health_unhealthy };
}

abbrev optional_client : ClientSnapshot
optional_client = record failing_client {
  name = codes "search";
  readiness_policy = readiness_optional;
}

status-readiness_agree_example :
    let cs = failing_client ∷ optional_client ∷ [] in
    ((readiness counting_opskit cs).ready ≡ every satisfied cs)
    × (status counting_opskit cs ≡ status_verdict counting_opskit cs)
unfolding validate_readiness_policy normalize_readiness_policy
status-readiness_agree_example =
    status-readiness_agree counting_opskit failing_client (optional_client ∷ []) (refl, (refl, tt))

check_verdict-satisfied_example :
    (check_verdict counting_opskit readiness_required health_degraded).1
    ≡ readiness_satisfied readiness_required health_degraded
unfolding validate_readiness_policy normalize_readiness_policy
check_verdict-satisfied_example =
    check_verdict-satisfied counting_opskit readiness_required health_degraded refl
