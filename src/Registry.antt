-- ===== src/Registry.antt =====
-- registry.go: the registry's configuration, its map of clients, and the operations that change or
-- read it. The read-write mutex makes each of them one step. A check slot, the one-token channel
-- that an entry has, is part of the model of concurrent checks.
pub mod Atomic
pub mod Consistent
use clientkit.Prelude.{
  ℕ, Bool, true, false, not, ◌&&◌, Option, none, some, List, [], ◌∷◌, ℤ, pos, ltb_ℤ, leb_ℤ, beq_ℤ,
  ltb, Result, ok, err, ◌>>=◌, ◌>>◌, refuse_if, refuse_error, contains, ◌==◌, if◌then◌else◌,
}
use clientkit.Text.{Text, text_eq}
use clientkit.Dict.{Dict, lookup, insert}
use clientkit.Health.{
  Health, HealthSanitizer, default_health_sanitizer, sanitize_health_safely_with_panic,
}
use clientkit.Readiness.{ReadinessPolicy}
use clientkit.Registration.{
  RegisteredClient, Registrant, RegistryError, registry_required, duplicate_in_batch,
  already_registered, ValidatedRegistration, validate_registration,
}

pub record RegistryHealthOverride : Type 0 where
  pub health : Health
  pub decided_at : ℕ

pub record RegisteredClientEntry : Type 0 where
  pub registrant : RegisteredClient
  pub protocol : Text
  pub policy : ReadinessPolicy
  pub health_check_enabled : Bool
  pub synthetic_health : Option RegistryHealthOverride

pub record Registry : Type 0 where
  pub clients : Dict Text RegisteredClientEntry
  pub max_concurrent_checks : ℤ
  pub health_sanitizer : Option HealthSanitizer
  pub disable_health_sanitizer : Bool

abbrev pub entry_of : ValidatedRegistration → RegisteredClientEntry
entry_of r = record {
  registrant = r.registrant;
  protocol = r.protocol;
  policy = r.policy;
  health_check_enabled = r.health_check_enabled;
  synthetic_health = none;
}

-- The first loop of RegisterAll; `names` is batchNames.
unfoldable pub validate_batch :
    List Text → List Registrant → Result RegistryError (List ValidatedRegistration)
validate_batch names [] = ok []
validate_batch names (registrant ∷ registrants) = elim (validate_registration registrant) [
  | err e ↦ err e
  | ok r ↦ elim (contains names r.name) [
    | true ↦ err (duplicate_in_batch r.name)
    | false ↦ elim (validate_batch (r.name ∷ names) registrants) [
      | err e ↦ err e
      | ok rs ↦ ok (r ∷ rs)
    ]
  ]
]

-- The second loop: the first name that the map has.
unfoldable pub find_registered :
    Dict Text RegisteredClientEntry → List ValidatedRegistration → Option Text
find_registered clients [] = none
find_registered clients (r ∷ rs) = elim (lookup r.name clients) [
  | some entry ↦ some r.name
  | none ↦ find_registered clients rs
]

-- The third loop.
unfoldable pub insert_all :
    Dict Text RegisteredClientEntry → List ValidatedRegistration → Dict Text RegisteredClientEntry
insert_all clients [] = clients
insert_all clients (r ∷ rs) = insert_all (insert r.name (entry_of r) clients) rs

-- RegisterAll on a registry that is there: the registry afterwards, and the error.
unfoldable pub register_validated :
    Registry → List ValidatedRegistration → Registry × Option RegistryError
register_validated r registrations = elim (find_registered r.clients registrations) [
  | some name ↦ (r, some (already_registered name))
  | none ↦ (record r { clients = insert_all r.clients registrations }, none)
]

abbrev register_checked :
    Registry → Result RegistryError (List ValidatedRegistration) → Registry × Option RegistryError
register_checked r (err e) = (r, some e)
register_checked r (ok registrations) = register_validated r registrations

unfoldable pub register_all : Registry → List Registrant → Registry × Option RegistryError
register_all r registrants = register_checked r (validate_batch [] registrants)

abbrev lift_register : Registry × Option RegistryError → Option Registry × Option RegistryError
lift_register (r, e) = (some r, e)

-- A method call on a pointer, which may be nil.
unfoldable pub register_all_on :
    Option Registry → List Registrant → Option Registry × Option RegistryError
register_all_on none registrants = (none, some registry_required)
register_all_on (some r) registrants = lift_register (register_all r registrants)

unfoldable pub register : Registry → Registrant → Registry × Option RegistryError
unfolding register_all
register r registrant = register_all r (registrant ∷ [])

abbrev registrant_of : RegisteredClientEntry → RegisteredClient
registrant_of entry = entry.registrant

-- Get: the client, where the Boolean result is true.
unfoldable pub get : Option Registry → Text → Option RegisteredClient
get none name = none
get (some r) name = elim (lookup name r.clients) [
  | none ↦ none
  | some entry ↦ some (registrant_of entry)
]

unfoldable pub override_entry : RegisteredClientEntry → Health → ℕ → Bool → RegisteredClientEntry
override_entry entry health decided_at true = record entry {
  synthetic_health = some (record { health = health; decided_at = decided_at });
}
override_entry entry health decided_at false = record entry { synthetic_health = none }

-- An override that was decided later stays.
abbrev pub is_outdated : Option RegistryHealthOverride → ℕ → Bool
is_outdated none decided_at = false
is_outdated (some override) decided_at = ltb decided_at override.decided_at

unfoldable pub apply_health_check_outcome : Registry → Text → Health → ℕ → Bool → Registry
unfolding override_entry
apply_health_check_outcome r name health decided_at synthetic = elim (lookup name r.clients) [
  | none ↦ r
  | some entry ↦ if is_outdated entry.synthetic_health decided_at then r else record r {
    clients = insert name (override_entry entry health decided_at synthetic) r.clients;
  }
]

abbrev pub default_max_concurrent_checks : ℤ
default_max_concurrent_checks = pos 4

unfoldable pub normalized_max_concurrent_checks : Option Registry → ℤ
normalized_max_concurrent_checks none = default_max_concurrent_checks
normalized_max_concurrent_checks (some r) =
    if leb_ℤ r.max_concurrent_checks (pos 0)
    then default_max_concurrent_checks
    else r.max_concurrent_checks

unfoldable pub sanitize_health_with_panic : Registry → Text → Health → Health × Bool
sanitize_health_with_panic r name health =
    sanitize_health_safely_with_panic name health r.health_sanitizer r.disable_health_sanitizer
