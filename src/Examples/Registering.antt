-- ===== src/Examples/Registering.antt =====
-- Examples for the registry.
use clientkit.Prelude.{
  ◌≡◌, refl, subst, true, false, none, some, List, [], ◌∷◌, All, ◌==◌, ltb, pos, returned, ok,
  if◌then◌else◌, arith,
}
use clientkit.Text.{Text, text_eq, codes, contains_dots}
use clientkit.Text.Trim.{trim_space}
use clientkit.Dict.{lookup, insert}
use clientkit.Failure.{failure_none}
use clientkit.Health.{Health, health_healthy}
use clientkit.Readiness.{readiness_required, validate_readiness_policy, blocks_readiness}
use clientkit.Identity.{
  validate_client_name, validate_client_protocol, client_name_alphanumeric, client_name_byte,
}
use clientkit.Registration.{
  RegisteredClient, Registrant, client, RegistryError, ValidatedRegistration, validate_registration,
  registered_name, registered_protocol, registered_policy, registration_enablement,
}
use clientkit.Registration.Valid.{IsRegistrable, validate_registration-IsRegistrable}
use clientkit.Registry.{
  Registry, RegisteredClientEntry, register_all, validate_batch, register_validated,
  find_registered, insert_all, apply_health_check_outcome, is_outdated, entry_of,
}
use clientkit.Registry.Atomic.{Accepted, register_all_lem}
use clientkit.Registry.Consistent.{
  IsConsistent, register_all-IsConsistent, apply_health_check_outcome-IsConsistent,
}
use clientkit.Snapshot.{HealthReader, snapshot, registered_client_health}
use clientkit.Snapshot.Laws.{
  snapshot_canonical, apply_health_check_outcome_lem, shown_health, own_health,
}
use clientkit.Check.{CheckMeeting, deadline_exceeded}

abbrev pub a_name : Text
a_name = codes "billing"

abbrev pub b_name : Text
b_name = codes "search"

abbrev pub client_named : Text → RegisteredClient
client_named name = record {
  identity = 1;
  name = returned name;
  protocol = returned (codes "http");
  readiness_policy = returned readiness_required;
  is_health_checker = true;
  check_enabled = none;
  is_idle_closer = false;
}

abbrev pub registration_named : Text → ValidatedRegistration
registration_named name = record {
  name = name;
  protocol = codes "http";
  policy = readiness_required;
  health_check_enabled = true;
  registrant = client_named name;
}

abbrev empty : Registry
empty = record {
  clients = [];
  max_concurrent_checks = pos 4;
  health_sanitizer = none;
  disable_health_sanitizer = false;
}

empty-IsConsistent : IsConsistent empty
unfolding lookup
empty-IsConsistent = record { nodup = tt; proper = λ name entry h. cc }

abbrev pub a_then_b : Registry
a_then_b = record empty {
  clients =
      (a_name, entry_of (registration_named a_name))
      ∷ (b_name, entry_of (registration_named b_name))
      ∷ [];
}

abbrev b_then_a : Registry
b_then_a = record empty {
  clients =
      (b_name, entry_of (registration_named b_name))
      ∷ (a_name, entry_of (registration_named a_name))
      ∷ [];
}

abbrev both : List Registrant
both = client (client_named a_name) ∷ client (client_named b_name) ∷ []

validated : validate_registration (client (client_named a_name)) ≡ ok (registration_named a_name)
unfolding validate_registration registered_name validate_client_name trim_space contains_dots
    client_name_alphanumeric client_name_byte registered_protocol validate_client_protocol
    registered_policy validate_readiness_policy registration_enablement blocks_readiness
validated = refl

validate_registration-IsRegistrable_example :
    (client (client_named a_name) ≡ client (client_named a_name))
    × (returned a_name ≡ returned a_name)
    × (returned (codes "http") ≡ returned (codes "http"))
    × IsRegistrable (registration_named a_name)
validate_registration-IsRegistrable_example =
    validate_registration-IsRegistrable (client (client_named a_name)) (registration_named a_name)
      validated

register_all_lem_example :
    let (now, error) = register_all empty both in
    ((e : RegistryError) → error ≡ some e → now ≡ empty)
    × (error ≡ none
        → All (Accepted empty now) both
          × ((name : Text) (entry : RegisteredClientEntry)
              → lookup name empty.clients ≡ some entry
              → lookup name now.clients ≡ some entry))
register_all_lem_example = register_all_lem empty both

register_all-IsConsistent_example : IsConsistent (register_all empty both).0
register_all-IsConsistent_example = register_all-IsConsistent empty both empty-IsConsistent

registered : (register_all empty both).0 ≡ a_then_b
unfolding register_all validate_batch register_validated find_registered insert_all lookup insert
    validate_registration registered_name validate_client_name trim_space contains_dots
    client_name_alphanumeric client_name_byte registered_protocol validate_client_protocol
    registered_policy validate_readiness_policy registration_enablement blocks_readiness
registered = refl

pub a_then_b-IsConsistent : IsConsistent a_then_b
a_then_b-IsConsistent =
    subst IsConsistent registered (register_all-IsConsistent empty both empty-IsConsistent)

abbrev both_reversed : List Registrant
both_reversed = client (client_named b_name) ∷ client (client_named a_name) ∷ []

registered_reversed : (register_all empty both_reversed).0 ≡ b_then_a
unfolding register_all validate_batch register_validated find_registered insert_all lookup insert
    validate_registration registered_name validate_client_name trim_space contains_dots
    client_name_alphanumeric client_name_byte registered_protocol validate_client_protocol
    registered_policy validate_readiness_policy registration_enablement blocks_readiness
registered_reversed = refl

b_then_a-IsConsistent : IsConsistent b_then_a
b_then_a-IsConsistent =
    subst IsConsistent registered_reversed
      (register_all-IsConsistent empty both_reversed empty-IsConsistent)

same_clients : (name : Text) → lookup name a_then_b.clients ≡ lookup name b_then_a.clients
unfolding lookup
same_clients name = ground (arith, text_eq.beq_iff a_name name, text_eq.beq_iff b_name name)

abbrev checked_health : Health
checked_health = record {
  state = health_healthy;
  failure_class = failure_none;
  checked_at = 5;
  duration = pos 1;
  message = [];
}

abbrev read_health : HealthReader
read_health registrant = returned checked_health

snapshot_canonical_example :
    snapshot read_health (some a_then_b) ≡ snapshot read_health (some b_then_a)
snapshot_canonical_example =
    snapshot_canonical read_health a_then_b b_then_a a_then_b-IsConsistent.nodup
      b_then_a-IsConsistent.nodup refl refl same_clients

apply_health_check_outcome-IsConsistent_example :
    IsConsistent (apply_health_check_outcome a_then_b a_name checked_health 5 true)
apply_health_check_outcome-IsConsistent_example =
    apply_health_check_outcome-IsConsistent a_then_b a_name checked_health 5 true
      a_then_b-IsConsistent

found_a : lookup a_name a_then_b.clients ≡ some (entry_of (registration_named a_name))
unfolding lookup
found_a = refl

apply_health_check_outcome_lem_example :
    let now = apply_health_check_outcome a_then_b a_name checked_health 9 true in
    let entry = entry_of (registration_named a_name) in
    (is_outdated entry.synthetic_health 9 ≡ true → now ≡ a_then_b)
    × (is_outdated entry.synthetic_health 9 ≡ false
        → (shown_health read_health now a_name
            ≡ some (
                if true
                then (if ltb 9 (registered_client_health read_health entry.registrant).checked_at
                    then own_health read_health a_then_b a_name entry
                    else checked_health)
                else own_health read_health a_then_b a_name entry))
          × ((other : Text)
              → (a_name == other) ≡ false
              → shown_health read_health now other ≡ shown_health read_health a_then_b other))
apply_health_check_outcome_lem_example =
    apply_health_check_outcome_lem read_health a_then_b a_name checked_health 9 true
      (entry_of (registration_named a_name)) found_a

-- A check that outlives its deadline although the checker reports good health.
abbrev late_check : CheckMeeting
late_check = record {
  slot_error = none;
  permit_error = none;
  check = returned checked_health;
  check_error = some deadline_exceeded;
  sanitize_error = none;
  accept_error = none;
  now = 7;
  sanitized_at = 8;
}
