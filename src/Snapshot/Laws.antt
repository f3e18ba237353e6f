-- ===== src/Snapshot/Laws.antt =====
-- What a snapshot shows of the map and of the outcomes applied to it.
use clientkit.Prelude.{
  ℕ, ◌≡◌, refl, sym, ◌∙◌, Bool, true, false, Option, none, some, map, ltb, ◌==◌, if◌then◌else◌,
  arith,
}
use clientkit.Text.{Text, text_eq}
use clientkit.Dict.{lookup, insert, lookup-insert, NodupKeys}
use clientkit.Health.{Health, sanitize_health_safely_with_panic}
use clientkit.Registry.{
  RegisteredClientEntry, Registry, apply_health_check_outcome, override_entry, is_outdated,
  sanitize_health_with_panic,
}
use clientkit.Sort.{sort_by_name-map, sort_by_name_canonical, key}
use clientkit.Snapshot.{
  ClientSnapshot, HealthReader, registered_client_health, sanitize_health, project_override,
  effective_health, snapshot_client, snapshot,
}

name-snapshot_client :
    (read : HealthReader) (r : Registry) (p : Text × RegisteredClientEntry)
    → (snapshot_client read r p).name ≡ key p
unfolding snapshot_client
name-snapshot_client read r (name, entry) = refl

-- Registries that sanitize alike show an entry alike.
same_view :
    (read : HealthReader) (r s : Registry)
    → r.health_sanitizer ≡ s.health_sanitizer
    → r.disable_health_sanitizer ≡ s.disable_health_sanitizer
    → snapshot_client read r ≡ snapshot_client read s
unfolding snapshot_client effective_health sanitize_health sanitize_health_with_panic
same_view read r s p q = λ i (name, entry). record {
  name = name;
  protocol = entry.protocol;
  readiness_policy = entry.policy;
  health =
      project_override entry.synthetic_health (registered_client_health read entry.registrant)
        (sanitize_health_safely_with_panic name (registered_client_health read entry.registrant)
          (p i) (q i)).0;
}

-- Two registries with the same sanitizer, whose maps have each name once and give the same entry under every
-- name, have the same snapshot: it depends on what the map holds, never on the order in which its
-- entries are visited.
pub snapshot_canonical :
    (read : HealthReader) (r s : Registry)
    → NodupKeys r.clients
    → NodupKeys s.clients
    → r.health_sanitizer ≡ s.health_sanitizer
    → r.disable_health_sanitizer ≡ s.disable_health_sanitizer
    → ((name : Text) → lookup name r.clients ≡ lookup name s.clients)
    → snapshot read (some r) ≡ snapshot read (some s)
unfolding snapshot
snapshot_canonical read r s c d sanitizer disabled e =
    sort_by_name-map key (λ (c : ClientSnapshot). c.name) (snapshot_client read r)
      (name-snapshot_client read r) r.clients
    ∙ (λ i.
        map (same_view read r s sanitizer disabled i)
          (sort_by_name_canonical r.clients s.clients c d e i))
    ∙ sym (
        sort_by_name-map key (λ (c : ClientSnapshot). c.name) (snapshot_client read s)
          (name-snapshot_client read s) s.clients)

-- The health that a snapshot shows of a client, where the client is registered.
abbrev pub shown_entry :
    HealthReader → Registry → Text → Option RegisteredClientEntry → Option Health
shown_entry read r name none = none
shown_entry read r name (some entry) = some (effective_health read r name entry)

pub shown_health : HealthReader → Registry → Text → Option Health
shown_health read r name = shown_entry read r name (lookup name r.clients)

-- What a client itself reports, as the registry shows it.
pub own_health : HealthReader → Registry → Text → RegisteredClientEntry → Health
own_health read r name entry =
    sanitize_health r name (registered_client_health read entry.registrant)

apply_changed :
    (r : Registry) (name : Text) (health : Health) (decided_at : ℕ) (synthetic : Bool)
    (entry : RegisteredClientEntry)
    → lookup name r.clients ≡ some entry
    → is_outdated entry.synthetic_health decided_at ≡ false
    → apply_health_check_outcome r name health decided_at synthetic ≡ record r {
      clients = insert name (override_entry entry health decided_at synthetic) r.clients;
    }
unfolding apply_health_check_outcome
apply_changed r name health decided_at synthetic entry found new =
    rw (found, apply_health_check_outcome, new)

module _ (read : HealthReader) (r : Registry) (name : Text) (health : Health) (decided_at : ℕ)
    (synthetic : Bool) (entry : RegisteredClientEntry) where
  abbrev overridden : Registry
  overridden = record r {
    clients = insert name (override_entry entry health decided_at synthetic) r.clients;
  }

  shown_overridden :
      shown_health read overridden name
      ≡ some (
          if synthetic
          then (if ltb decided_at (registered_client_health read entry.registrant).checked_at
              then own_health read r name entry
              else health)
          else own_health read r name entry)
  unfolding shown_health own_health effective_health override_entry sanitize_health
      sanitize_health_with_panic
  shown_overridden =
      rw
        (
          lookup-insert name name (override_entry entry health decided_at synthetic) r.clients,
          (text_eq.beq_iff name name).1 refl,
        )
        (ground arith)

  shown_other :
      (other : Text)
      → (name == other) ≡ false
      → shown_health read overridden other ≡ shown_health read r other
  unfolding shown_health effective_health sanitize_health sanitize_health_with_panic
  shown_other other differ =
      rw
        (
          lookup-insert name other (override_entry entry health decided_at synthetic) r.clients,
          differ,
        )
        (ground arith)

-- The outcome of a check of a registered client is shown, unless a later one was applied before it. A failure that the registry
-- made up is shown until the client has health of a later time; the outcome of a check that the
-- client completed makes the client's own health visible at once. No other client is touched.
-- An outcome that comes too late changes nothing.
pub apply_health_check_outcome_lem :
    (read : HealthReader) (r : Registry) (name : Text) (health : Health) (decided_at : ℕ)
    (synthetic : Bool) (entry : RegisteredClientEntry)
    → lookup name r.clients ≡ some entry
    → let now = apply_health_check_outcome r name health decided_at synthetic in
      (is_outdated entry.synthetic_health decided_at ≡ true → now ≡ r)
      × (is_outdated entry.synthetic_health decided_at ≡ false
          → (shown_health read now name
              ≡ some (
                  if synthetic
                  then (if ltb decided_at
                        (registered_client_health read entry.registrant).checked_at
                      then own_health read r name entry
                      else health)
                  else own_health read r name entry))
            × ((other : Text)
                → (name == other) ≡ false
                → shown_health read now other ≡ shown_health read r other))
unfolding apply_health_check_outcome
apply_health_check_outcome_lem read r name health decided_at synthetic entry found = (
  λ old. rw (found, apply_health_check_outcome, old),
  λ new. rw (apply_changed r name health decided_at synthetic entry found new) (
    shown_overridden read r name health decided_at synthetic entry,
    shown_other read r name health decided_at synthetic entry,
  ),
)
