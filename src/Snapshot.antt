-- ===== src/Snapshot.antt =====
-- Snapshot of registry.go: the passive view of every client. `read` is what each client's Health
-- method does when it is called; it may panic.
pub mod Laws
use clientkit.Prelude.{
  ℕ, Bool, Option, none, some, List, [], ◌∷◌, map, ltb, pos, Call, recovered, if◌then◌else◌,
}
use clientkit.Text.{Text, codes}
use clientkit.Failure.{failure_policy}
use clientkit.Health.{Health, health_unknown}
use clientkit.Readiness.{ReadinessPolicy}
use clientkit.Registration.{RegisteredClient}
use clientkit.Registry.{
  RegistryHealthOverride, RegisteredClientEntry, Registry, sanitize_health_with_panic,
}
use clientkit.Sort.{sort_by_name}

pub record ClientSnapshot : Type 0 where
  pub name : Text
  pub protocol : Text
  pub readiness_policy : ReadinessPolicy
  pub health : Health

unfoldable pub evaluation_panicked_message : Text
evaluation_panicked_message = codes "client health evaluation panicked"

abbrev pub HealthReader : Type 0
HealthReader = RegisteredClient → Call Health

unfoldable pub registered_client_health : HealthReader → RegisteredClient → Health
registered_client_health read registrant =
    recovered
      (record {
        state = health_unknown;
        failure_class = failure_policy;
        checked_at = 0;
        duration = pos 0;
        message = evaluation_panicked_message;
      })
      (read registrant)

unfoldable pub sanitize_health : Registry → Text → Health → Health
sanitize_health r name health = (sanitize_health_with_panic r name health).0

-- An override stands until the client has health of a later time.
unfoldable pub project_override : Option RegistryHealthOverride → Health → Health → Health
project_override none health sanitized = sanitized
project_override (some override) health sanitized =
    if ltb override.decided_at health.checked_at then sanitized else override.health

unfoldable pub effective_health : HealthReader → Registry → Text → RegisteredClientEntry → Health
unfolding project_override
effective_health read r name entry =
    let health = registered_client_health read entry.registrant in
    project_override entry.synthetic_health health (sanitize_health r name health)

unfoldable pub snapshot_client :
    HealthReader → Registry → Text × RegisteredClientEntry → ClientSnapshot
snapshot_client read r (name, entry) = record {
  name = name;
  protocol = entry.protocol;
  readiness_policy = entry.policy;
  health = effective_health read r name entry;
}

unfoldable pub snapshot : HealthReader → Option Registry → List ClientSnapshot
snapshot read none = []
snapshot read (some r) =
    sort_by_name (λ (c : ClientSnapshot). c.name) (map (snapshot_client read r) r.clients)
