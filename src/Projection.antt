-- ===== src/Projection.antt =====
-- opskit.go: what a snapshot and a check result become for opskit.
pub mod Agreement
use clientkit.Prelude.{
  ℕ, suc, Bool, true, false, not, ◌&&◌, ◌||◌, Option, none, some, List, [], ◌∷◌, ◌++◌, ◌==◌, nat_eq,
  if◌then◌else◌, ℤ,
}
use clientkit.Text.{Text, codes}
use clientkit.Failure.{FailureClass}
use clientkit.Failure
use clientkit.Health.{
  HealthState, health_unknown, health_healthy, health_degraded, health_unhealthy, health_other,
  Health, is_healthy_state,
}
use clientkit.Readiness.{
  ReadinessPolicy, readiness_unset, readiness_required, readiness_optional,
  readiness_degraded_allowed, readiness_informational, readiness_other, blocks_readiness,
  participates_in_readiness, readiness_satisfied,
}
use clientkit.Snapshot.{ClientSnapshot}
use clientkit.Opskit.{Opskit, Attribute, CheckResult, NamedCheck, ReadinessItem, Readiness}

-- string(policy), string(state), string(class).
pub policy_text : ReadinessPolicy → Text
policy_text readiness_unset = []
policy_text readiness_required = codes "required"
policy_text readiness_optional = codes "optional"
policy_text readiness_degraded_allowed = codes "degraded_allowed"
policy_text readiness_informational = codes "informational"
policy_text (readiness_other text) = text

pub state_text : HealthState → Text
state_text health_unknown = codes "unknown"
state_text health_healthy = codes "healthy"
state_text health_degraded = codes "degraded"
state_text health_unhealthy = codes "unhealthy"
state_text (health_other text) = text

pub class_text : FailureClass → Text
class_text Failure.failure_none = []
class_text Failure.failure_configuration = codes "configuration"
class_text Failure.failure_policy = codes "policy"
class_text Failure.failure_request = codes "request"
class_text Failure.failure_canceled = codes "canceled"
class_text Failure.failure_timeout = codes "timeout"
class_text Failure.failure_name_resolution = codes "name_resolution"
class_text Failure.failure_connection_refused = codes "connection_refused"
class_text Failure.failure_connection_reset = codes "connection_reset"
class_text Failure.failure_connection_closed = codes "connection_closed"
class_text Failure.failure_tls = codes "tls"
class_text Failure.failure_remote_response = codes "remote_response"
class_text Failure.failure_transport = codes "transport"
class_text (Failure.failure_other text) = text

unfoldable pub failure_attribute : FailureClass → List Attribute
failure_attribute Failure.failure_none = []
failure_attribute class = record { key = codes "failure_class"; value = class_text class } ∷ []

-- The flags of the loop in Status.
pub record StatusFlags : Type 0 where
  pub blocking_unhealthy : Bool
  pub blocking_unknown : Bool
  pub degraded : Bool

abbrev pub is_unknown_state : HealthState → Bool
is_unknown_state health_unknown = true
is_unknown_state _ = false

unfoldable pub status_round : StatusFlags → ClientSnapshot → StatusFlags
status_round flags c =
    if readiness_satisfied c.readiness_policy c.health.state
    then (if is_healthy_state c.health.state then flags else record flags { degraded = true })
    else (if is_unknown_state c.health.state
        then record flags { blocking_unknown = true }
        else record flags { blocking_unhealthy = true })

unfoldable pub status_loop : StatusFlags → List ClientSnapshot → StatusFlags
status_loop flags [] = flags
status_loop flags (c ∷ cs) = status_loop (status_round flags c) cs

abbrev pub no_flags : StatusFlags
no_flags = record { blocking_unhealthy = false; blocking_unknown = false; degraded = false }

module _ (o : Opskit) where
  unfoldable pub status_of_flags : StatusFlags → o.Status
  status_of_flags flags =
      if flags.blocking_unhealthy
      then o.not_ready_status (codes "one or more readiness-blocking clients are not ready")
      else if flags.blocking_unknown
      then o.unknown_status (codes "one or more readiness-blocking clients have unknown health")
      else if flags.degraded
      then o.degraded_status (codes "clients degraded but ready")
      else o.ready_status (codes "clients healthy")

  -- Status, on the snapshot that it takes.
  unfoldable pub status : List ClientSnapshot → o.Status
  unfolding status_of_flags
  status [] = o.unknown_status (codes "no clients registered")
  status (c ∷ cs) = status_of_flags (status_loop no_flags (c ∷ cs))

  unfoldable pub opskit_readiness_state : HealthState → o.State
  opskit_readiness_state health_healthy = o.state_ready
  opskit_readiness_state health_degraded = o.state_degraded
  opskit_readiness_state health_unhealthy = o.state_not_ready
  opskit_readiness_state _ = o.state_unknown

  -- `ready` of one round of the loop in Readiness.
  unfoldable pub item_ready : ClientSnapshot → Bool
  item_ready c =
      if blocks_readiness c.readiness_policy
      then readiness_satisfied c.readiness_policy c.health.state
      else is_healthy_state c.health.state

  unfoldable pub readiness_item : ClientSnapshot → ReadinessItem o
  unfolding opskit_readiness_state item_ready
  readiness_item c = record {
    name = c.name;
    kind = c.protocol;
    impact =
        if blocks_readiness c.readiness_policy then o.impact_blocking else o.impact_non_blocking;
    ready = item_ready c;
    state = opskit_readiness_state c.health.state;
    reason = policy_text c.readiness_policy;
    message = c.health.message;
  }

  -- The variables of the loop in Readiness.
  pub record ReadinessRun : Type 0 where
    pub ready : Bool
    pub items : List (ReadinessItem o)
    pub blocking : ℕ

  unfoldable pub readiness_round : ReadinessRun → ClientSnapshot → ReadinessRun
  readiness_round run c =
      if participates_in_readiness c.readiness_policy
      then record {
        ready = run.ready && (not (blocks_readiness c.readiness_policy) || item_ready c);
        items = run.items ++ readiness_item c ∷ [];
        blocking = if blocks_readiness c.readiness_policy then suc run.blocking else run.blocking;
      }
      else run

  unfoldable pub readiness_loop : ReadinessRun → List ClientSnapshot → ReadinessRun
  readiness_loop run [] = run
  readiness_loop run (c ∷ cs) = readiness_loop (readiness_round run c) cs

  abbrev pub readiness_start : ReadinessRun
  readiness_start = record { ready = true; items = []; blocking = 0 }

  unfoldable pub readiness_of_run : ReadinessRun → Readiness o
  readiness_of_run run =
      if run.blocking == 0
      then record { ready = true; reason = codes "no required clients"; items = run.items }
      else record {
        ready = run.ready;
        reason =
            if run.ready
            then codes "all readiness-blocking client policies are satisfied"
            else codes "one or more readiness-blocking client policies are not satisfied";
        items = run.items;
      }

  -- Readiness, on the snapshot that it takes.
  unfoldable pub readiness : List ClientSnapshot → Readiness o
  unfolding readiness_of_run
  readiness [] = record { ready = false; reason = codes "no clients registered"; items = [] }
  readiness (c ∷ cs) = readiness_of_run (readiness_loop readiness_start (c ∷ cs))

  -- The if chain of opskitNamedClientCheck: State and Ready.
  unfoldable pub check_verdict : ReadinessPolicy → HealthState → o.State × Bool
  check_verdict policy health_healthy = (o.state_ready, true)
  check_verdict policy health_degraded =
      (o.state_degraded, readiness_satisfied policy health_degraded)
  check_verdict policy health_unhealthy =
      if blocks_readiness policy then (o.state_not_ready, false) else (o.state_degraded, true)
  check_verdict policy state =
      if blocks_readiness policy then (o.state_unknown, false) else (o.state_degraded, true)

  unfoldable pub opskit_named_client_check : Text → Text → ReadinessPolicy → Health → NamedCheck o
  unfolding check_verdict failure_attribute
  opskit_named_client_check name protocol policy health =
      let (state, ready) = check_verdict policy health.state in
      record {
        name = name;
        kind = protocol;
        result = record {
          state = state;
          ready = ready;
          message = health.message;
          checked_at = if health.checked_at == 0 then none else some health.checked_at;
          duration = o.new_duration health.duration;
          attributes =
              record { key = codes "readiness"; value = policy_text policy }
              ∷ record { key = codes "health_state"; value = state_text health.state }
              ∷ failure_attribute health.failure_class;
        };
      }
