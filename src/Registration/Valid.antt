-- ===== src/Registration/Valid.antt =====
-- What a registration that was validated is known to satisfy.
use clientkit.Prelude.{◌≡◌, Bool, true, false, none, returned, ok, ap, sym, ◌∙◌, arith}
use clientkit.Text.{Text}
use clientkit.Identity.{validate_client_name, validate_client_protocol}
use clientkit.Readiness.{
  ReadinessPolicy, normalize_readiness_policy, validate_readiness_policy, blocks_readiness,
  is_valid_normalized,
}
use clientkit.Registration.{
  RegisteredClient, Registrant, nil_interface, typed_nil, client, ValidatedRegistration,
  validate_client, registered_name, registered_protocol, registered_policy, registration_enablement,
  validate_registration,
}

-- A name and a protocol fit for telemetry, a policy of the vocabulary that is not the empty
-- string, and a health check where the policy blocks readiness and the client can check itself.
pub record IsRegistrable (r : ValidatedRegistration) : Type 0 where
  pub named : validate_client_name r.name ≡ none
  pub labelled : validate_client_protocol r.protocol ≡ none
  pub policed : is_valid_normalized r.policy ≡ true
  pub checked :
      r.registrant.is_health_checker ≡ true
      → blocks_readiness r.policy ≡ true
      → r.health_check_enabled ≡ true
  pub passive : r.registrant.is_health_checker ≡ false → r.health_check_enabled ≡ false

enablement-checked :
    (c : RegisteredClient) (name : Text) (policy : ReadinessPolicy) {enabled : Bool}
    → registration_enablement c name policy ≡ ok enabled
    → (c.is_health_checker ≡ true → blocks_readiness policy ≡ true → enabled ≡ true)
      × (c.is_health_checker ≡ false → enabled ≡ false)
unfolding registration_enablement
enablement-checked c name policy h = ground arith

normalize-valid :
    (policy : ReadinessPolicy)
    → validate_readiness_policy policy ≡ true
    → is_valid_normalized (normalize_readiness_policy policy) ≡ true
unfolding validate_readiness_policy
normalize-valid policy h = h

registered_name-valid :
    (c : RegisteredClient) {name : Text}
    → registered_name c ≡ ok name
    → (c.name ≡ returned name) × (validate_client_name name ≡ none)
unfolding registered_name
registered_name-valid c h = ground arith

registered_protocol-valid :
    (c : RegisteredClient) (name : Text) {protocol : Text}
    → registered_protocol c name ≡ ok protocol
    → (c.protocol ≡ returned protocol) × (validate_client_protocol protocol ≡ none)
unfolding registered_protocol
registered_protocol-valid c name h = ground arith

registered_policy-valid :
    (c : RegisteredClient) (name : Text) {policy : ReadinessPolicy}
    → registered_policy c name ≡ ok policy
    → is_valid_normalized policy ≡ true
unfolding registered_policy validate_readiness_policy
registered_policy-valid c name h = ground arith

-- The steps of a validation that succeeded.
record Validated (c : RegisteredClient) (r : ValidatedRegistration) : Type 0 where
  named : registered_name c ≡ ok r.name
  labelled : registered_protocol c r.name ≡ ok r.protocol
  policed : registered_policy c r.name ≡ ok r.policy
  enabled : registration_enablement c r.name r.policy ≡ ok r.health_check_enabled
  same : r.registrant ≡ c

validate_client-Validated :
    (c : RegisteredClient) (r : ValidatedRegistration) → validate_client c ≡ ok r → Validated c r
unfolding validate_client
validate_client-Validated c r h = ground arith

Validated-IsRegistrable :
    (c : RegisteredClient) (r : ValidatedRegistration) → Validated c r → IsRegistrable r
Validated-IsRegistrable c r v =
    let enablement = enablement-checked c r.name r.policy v.enabled in
    record {
      named = (registered_name-valid c v.named).1;
      labelled = (registered_protocol-valid c r.name v.labelled).1;
      policed = registered_policy-valid c r.name v.policed;
      checked =
          λ p. enablement.0 (ap (λ (d : RegisteredClient). d.is_health_checker) (sym v.same) ∙ p);
      passive =
          λ p. enablement.1 (ap (λ (d : RegisteredClient). d.is_health_checker) (sym v.same) ∙ p);
    }

-- A registrant that is validated is a client, kept as it is, with the name and the protocol that
-- it returned; and its registration is fit for a registry.
pub validate_registration-IsRegistrable :
    (registrant : Registrant) (r : ValidatedRegistration)
    → validate_registration registrant ≡ ok r
    → (registrant ≡ client r.registrant)
      × (r.registrant.name ≡ returned r.name)
      × (r.registrant.protocol ≡ returned r.protocol)
      × IsRegistrable r
unfolding validate_registration
validate_registration-IsRegistrable nil_interface r h = cc
validate_registration-IsRegistrable typed_nil r h = cc
validate_registration-IsRegistrable (client c) r h =
    let v = validate_client-Validated c r h in
    (
      ap client (sym v.same),
      ap (λ (d : RegisteredClient). d.name) v.same ∙ (registered_name-valid c v.named).0,
      ap (λ (d : RegisteredClient). d.protocol) v.same
          ∙ (registered_protocol-valid c r.name v.labelled).0,
      Validated-IsRegistrable c r v,
    )
