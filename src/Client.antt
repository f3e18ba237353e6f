-- ===== src/Client.antt =====
-- client.go, config.go and internal/healthrecord/record.go: a client's policy and cached health, and
-- how an assessment becomes health. The client's mutex makes each operation one step; the event that
-- a client's observer gets is a result.
pub mod Current
use clientkit.Prelude.{
  ℕ, ◌-◌, Bool, true, false, not, ◌&&◌, ◌||◌, Option, none, some, List, [], ◌++◌, ◌==◌, nat_eq, ltb,
  ℤ, pos, leb_ℤ, elapsed, Result, ok, ◌>>◌, refuse_if, refuse_error, if◌then◌else◌,
}
use clientkit.Text.{Text, codes}
use clientkit.Failure.{FailureClass, failure_none}
use clientkit.Identity.{NameError, validate_client_name}
use clientkit.Readiness.{ReadinessPolicy, normalize_readiness_policy, validate_readiness_policy}
use clientkit.Health.{HealthState, health_unknown, Health, HealthSanitizer, sanitize_health_safely}
use clientkit.Opskit.{Attribute}
use clientkit.Observer.{HealthEvent}

pub record ClientConfig : Type 0 where
  pub name : Text
  pub readiness_policy : ReadinessPolicy
  pub health_sanitizer : Option HealthSanitizer
  pub disable_health_sanitizer : Bool

pub data ClientConfigError : Type 0 where
  client_name_invalid : NameError → ClientConfigError
  client_policy_invalid : ClientConfigError
  client_sanitizer_set_and_disabled : ClientConfigError

pub record Client : Type 0 where
  pub name : Text
  pub readiness_policy : ReadinessPolicy
  pub health_sanitizer : Option HealthSanitizer
  pub disable_health_sanitizer : Bool
  pub health : Health

abbrev pub is_set : Option HealthSanitizer → Bool
is_set none = false
is_set (some sanitizer) = true

-- Config.Validate.
unfoldable pub validate_config : ClientConfig → Result ClientConfigError (Unit {0})
validate_config cfg =
    refuse_error (validate_client_name cfg.name) client_name_invalid
    >> refuse_if (not (validate_readiness_policy cfg.readiness_policy)) client_policy_invalid
    >> refuse_if (cfg.disable_health_sanitizer && is_set cfg.health_sanitizer)
        client_sanitizer_set_and_disabled

-- New, where no sanitizer of the configuration is the default one.
unfoldable pub new_client : ClientConfig → Result ClientConfigError Client
new_client cfg =
    validate_config cfg
    >> ok (record {
      name = cfg.name;
      readiness_policy = normalize_readiness_policy cfg.readiness_policy;
      health_sanitizer = cfg.health_sanitizer;
      disable_health_sanitizer = cfg.disable_health_sanitizer;
      health = record {
        state = health_unknown;
        failure_class = failure_none;
        checked_at = 0;
        duration = pos 0;
        message = [];
      };
    })

unfoldable pub update_health : Client → Health → Client × Health
update_health c health =
    let sanitized =
      sanitize_health_safely c.name health c.health_sanitizer c.disable_health_sanitizer in
    (record c { health = sanitized }, sanitized)

pub record HealthAssessment : Type 0 where
  pub state : HealthState
  pub failure_class : FailureClass
  pub message : Text

abbrev pub assessed_health : HealthAssessment → ℕ → ℕ → Health
assessed_health a started_at ended_at = record {
  state = a.state;
  failure_class = a.failure_class;
  checked_at = ended_at;
  duration = elapsed started_at ended_at;
  message = a.message;
}

abbrev pub health_event : Text → Text → Health → List Attribute → HealthEvent
health_event name protocol health attributes = record {
  client = name;
  protocol = protocol;
  state = health.state;
  failure_class = health.failure_class;
  checked_at = health.checked_at;
  duration = health.duration;
  message = health.message;
  attributes = attributes;
}

-- healthrecord.Record: the client afterwards, the health, and the event.
unfoldable pub record_health :
    Option Client
    → Text
    → HealthAssessment
    → ℕ
    → ℕ
    → List Attribute
    → Option Client × Health × HealthEvent
record_health none protocol a started_at ended_at attributes =
    let health = assessed_health a started_at ended_at in
    (none, health, health_event [] protocol health attributes)
record_health (some c) protocol a started_at ended_at attributes =
    let (updated, health) = update_health c (assessed_health a started_at ended_at) in
    (some updated, health, health_event c.name protocol health attributes)

abbrev is_unknown : HealthState → Bool
is_unknown health_unknown = true
is_unknown _ = false

abbrev stale_health : Health → Text → Health
stale_health health message = record {
  state = health_unknown;
  failure_class = failure_none;
  checked_at = health.checked_at;
  duration = health.duration;
  message = message;
}

-- healthrecord.ProjectStaleness at the time `now`.
unfoldable pub project_staleness : Health → ℤ → Text → ℕ → Health
project_staleness health stale_after check_name now =
    if leb_ℤ stale_after (pos 0) || is_unknown health.state
    then health
    else if health.checked_at == 0
    then stale_health health (check_name ++ codes " result has no timestamp")
    else if ltb now health.checked_at
    then stale_health health (check_name ++ codes " result timestamp is in the future")
    else if leb_ℤ (pos (now - health.checked_at)) stale_after
    then health
    else stale_health health (check_name ++ codes " result is stale")
