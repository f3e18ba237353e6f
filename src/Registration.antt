-- ===== src/Registration.antt =====
-- registered_client.go and the validation of registry.go: what a client shows to a registry, and
-- what validateRegistration makes of it.
pub mod Valid
use clientkit.Prelude.{
  ℕ, Bool, true, false, not, ◌&&◌, Option, none, some, Call, returned, Result, ok, err, ◌>>=◌, ◌>>◌,
  refuse_if, or_panic, refuse_error,
}
use clientkit.Text.{Text}
use clientkit.Identity.{NameError, validate_client_name, validate_client_protocol}
use clientkit.Readiness.{
  ReadinessPolicy, normalize_readiness_policy, validate_readiness_policy, blocks_readiness,
}

-- A registered client is code of the caller: each method returns a value or panics. `identity`
-- tells one client from another. `check_enabled` is none where the client is a HealthChecker that
-- is not HealthCheckConfigurable.
pub record RegisteredClient : Type 0 where
  pub identity : ℕ
  pub name : Call Text
  pub protocol : Call Text
  pub readiness_policy : Call ReadinessPolicy
  pub is_health_checker : Bool
  pub check_enabled : Option (Call Bool)
  pub is_idle_closer : Bool

-- An interface value: nil, a nil pointer in an interface, or a client.
pub data Registrant : Type 0 where
  nil_interface : Registrant
  typed_nil : Registrant
  client : RegisteredClient → Registrant

pub data RegistryError : Type 0 where
  registry_required : RegistryError
  nil_client : RegistryError
  name_panicked : RegistryError
  protocol_panicked : RegistryError
  policy_panicked : RegistryError
  invalid_name : NameError → RegistryError
  invalid_protocol : Text → NameError → RegistryError
  invalid_policy : Text → RegistryError
  enablement_panicked : Text → RegistryError
  check_required : Text → RegistryError
  duplicate_in_batch : Text → RegistryError
  already_registered : Text → RegistryError

pub record ValidatedRegistration : Type 0 where
  pub name : Text
  pub protocol : Text
  pub policy : ReadinessPolicy
  pub health_check_enabled : Bool
  pub registrant : RegisteredClient

-- isNilRegisteredClient, with the client where there is one.
abbrev pub present_client : Registrant → Option RegisteredClient
present_client nil_interface = none
present_client typed_nil = none
present_client (client c) = some c

unfoldable pub registered_client_health_check_enabled :
    RegisteredClient → Text → Result RegistryError Bool
registered_client_health_check_enabled c name = elim c.check_enabled [
  | none ↦ ok true
  | some enabled ↦ or_panic enabled (enablement_panicked name)
]

-- The last block of validateRegistration, which looks at a HealthChecker alone.
unfoldable pub registration_enablement :
    RegisteredClient → Text → ReadinessPolicy → Result RegistryError Bool
unfolding registered_client_health_check_enabled
registration_enablement c name policy = elim c.is_health_checker [
  | false ↦ ok false
  | true ↦ do
    enabled ← registered_client_health_check_enabled c name
    refuse_if (blocks_readiness policy && not enabled) (check_required name)
    ok enabled
]

-- The first, second and third block of validateRegistration.
unfoldable pub registered_name : RegisteredClient → Result RegistryError Text
registered_name c = do
  name ← or_panic c.name name_panicked
  refuse_error (validate_client_name name) invalid_name
  ok name

unfoldable pub registered_protocol : RegisteredClient → Text → Result RegistryError Text
registered_protocol c name = do
  protocol ← or_panic c.protocol protocol_panicked
  refuse_error (validate_client_protocol protocol) (invalid_protocol name)
  ok protocol

unfoldable pub registered_policy : RegisteredClient → Text → Result RegistryError ReadinessPolicy
registered_policy c name = do
  policy ← or_panic c.readiness_policy policy_panicked
  refuse_if (not (validate_readiness_policy policy)) (invalid_policy name)
  ok (normalize_readiness_policy policy)

unfoldable pub validate_client : RegisteredClient → Result RegistryError ValidatedRegistration
validate_client c = do
  name ← registered_name c
  protocol ← registered_protocol c name
  policy ← registered_policy c name
  enabled ← registration_enablement c name policy
  ok (record {
    name = name;
    protocol = protocol;
    policy = policy;
    health_check_enabled = enabled;
    registrant = c;
  })

unfoldable pub validate_registration : Registrant → Result RegistryError ValidatedRegistration
unfolding validate_client
validate_registration registrant = elim (present_client registrant) [
  | none ↦ err nil_client
  | some c ↦ validate_client c
]
