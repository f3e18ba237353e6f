-- ===== src/Tcp/Check/Assessed.antt =====
-- What a health check of tcpclient/check.go shows of its connection.
use mathlib.Core.List.{append-nil}
use mathlib.Core.Option.{none-ne-some}
use clientkit.Prelude.{
  ◌≡◌, ◌≢◌, refl, sym, ap, ◌∙◌, Bool, true, false, Option, none, some, List, ◌++◌, arith, Call,
  returned, panicked, if◌then◌else◌, true-ne-false,
}
use clientkit.Text.{Text}
use clientkit.Failure.{FailureClass, is_failure_none}
use clientkit.Health.{
  HealthState, health_healthy, health_degraded, health_unhealthy, is_healthy_state,
}
use clientkit.Fault.{Error}
use clientkit.Client.{HealthAssessment}
use clientkit.Tcp.Dial.{DialOutcome, Connection, ConnectEffect, closed, effects_of, dial_observed}
use clientkit.Tcp.Dial.Owned.{
  opened_by, closed_by, to_list, dial_agree, dial_observed_lem, is_success, dial_observed-success,
  opened_by-closed, closed_by-closed,
}
use clientkit.Tcp.Check.{
  TcpCheckMeeting, dial_assessment, probe_connection_safely, accepted_assessment, probe_assessment,
  probed_assessment, check_assessment, check_effects,
}

abbrev pub is_decided : HealthState → Bool
is_decided health_healthy = true
is_decided health_degraded = true
is_decided health_unhealthy = true
is_decided _ = false

-- An assessment decides, and has a failure class just if it is not healthy.
abbrev pub IsCoherent : HealthAssessment → Type 0
IsCoherent a =
    (is_decided a.state ≡ true) × (is_failure_none a.failure_class ≡ is_healthy_state a.state)

dial_assessment-IsCoherent :
    (outcome : DialOutcome) (tls shaken : Bool) (error : Option Error) (class : FailureClass)
    → dial_agree outcome class ≡ true
    → IsCoherent (dial_assessment outcome tls shaken error class)
unfolding dial_assessment
dial_assessment-IsCoherent outcome tls shaken error class h = ground arith

accepted_assessment-IsCoherent :
    (state : HealthState) (class : FailureClass) (message : Text)
    → IsCoherent (accepted_assessment state class message)
unfolding accepted_assessment
accepted_assessment-IsCoherent state class message = ground arith

probe_assessment-IsCoherent :
    (probe : Call HealthAssessment) (ended : Option Error)
    → IsCoherent (probe_assessment (probe_connection_safely probe ended))
      × (is_healthy_state (probe_assessment (probe_connection_safely probe ended)).state ≡ true
          → (probe ≢ panicked) × (ended ≡ none))
unfolding probe_assessment probe_connection_safely accepted_assessment
probe_assessment-IsCoherent panicked ended = ((refl, refl), λ h. cc)
probe_assessment-IsCoherent (returned a) none =
    (accepted_assessment-IsCoherent a.state a.failure_class a.message, λ h. ((λ e. cc), refl))
probe_assessment-IsCoherent (returned a) (some error) = ground arith

-- The dial's assessment is healthy just where the dial succeeded.
dial_assessment-success :
    (outcome : DialOutcome) (tls shaken : Bool) (error : Option Error) (class : FailureClass)
    → is_healthy_state (dial_assessment outcome tls shaken error class).state ≡ true
    → is_success outcome ≡ true
unfolding dial_assessment
dial_assessment-success outcome tls shaken error class h = ground arith

-- A connection that is returned is closed at the end.
close_returned :
    (effects : List ConnectEffect) (connection : Option Connection)
    → opened_by effects ≡ closed_by effects ++ to_list connection
    → let all = effects ++ effects_of closed connection in opened_by all ≡ closed_by all
close_returned effects none h =
    ap opened_by (append-nil effects)
    ∙ h
    ∙ append-nil (closed_by effects)
    ∙ sym (ap closed_by (append-nil effects))
close_returned effects (some c) h =
    opened_by-closed effects c ∙ h ∙ sym (closed_by-closed effects c)

check_effects-balanced :
    (tls : Bool) (m : TcpCheckMeeting)
    → opened_by (check_effects tls m) ≡ closed_by (check_effects tls m)
unfolding check_effects
check_effects-balanced tls m =
    let r = dial_observed tls m.dial in
    close_returned r.effects r.connection (dial_observed_lem tls m.dial).1

-- A healthy result of a probe that there is.
abbrev pub HasPassed : TcpCheckMeeting → Type 0
HasPassed m =
    (probe : Call HealthAssessment)
    → m.probe ≡ some probe
    → (probe ≢ panicked) × (m.probe_ended ≡ none)

-- What is shown of the final assessment, given the dial's.
abbrev IsSettled : TcpCheckMeeting → HealthAssessment → Type 0
IsSettled m a =
    IsCoherent (probed_assessment m a)
    × (is_healthy_state (probed_assessment m a).state ≡ true
        → (is_healthy_state a.state ≡ true) × HasPassed m)

probed_assessment-IsSettled :
    (m : TcpCheckMeeting) (a : HealthAssessment) → IsCoherent a → IsSettled m a
probed_assessment-IsSettled m a coherent = met m.probe
  where
    chosen :
        (probe : Call HealthAssessment) (healthy : Bool)
        → is_healthy_state a.state ≡ healthy
        → let t = record m { probe = some probe } in
          let last =
            if healthy then probe_assessment (probe_connection_safely probe m.probe_ended) else a in
          IsCoherent last
          × (is_healthy_state last.state ≡ true → (is_healthy_state a.state ≡ true) × HasPassed t)
    chosen probe false e = (coherent, λ h. true-ne-false h e)
    chosen probe true e =
        let (last, passed) = probe_assessment-IsCoherent probe m.probe_ended in
        (last, λ h. (e, λ p k. let (a, b) = passed h in ((λ q. a cc), b)))

    met : (probe : Option (Call HealthAssessment)) → IsSettled (record m { probe = probe }) a
    met none = (coherent, λ h. (h, λ p e. absurd (none-ne-some p e)))
    met (some probe) = chosen probe (is_healthy_state a.state) refl

-- A check, whatever it meets, ends with an assessment that decides and has a failure class just if it
-- is not healthy. Where it is healthy, the dial gave a connection, and a probe, if there is one, did
-- not panic and ended before its context did. Each connection that the check opened it closed.
pub check_assessment_lem :
    (tls : Bool) (m : TcpCheckMeeting)
    → let a = check_assessment tls m in
      IsCoherent a
      × (is_healthy_state a.state ≡ true
          → ((dial_observed tls m.dial).connection ≢ none) × HasPassed m)
      × (opened_by (check_effects tls m) ≡ closed_by (check_effects tls m))
unfolding check_assessment
check_assessment_lem tls m =
    let r = dial_observed tls m.dial in
    let shaken = r.metadata.tls_handshake_failed in
    let coherent =
      dial_assessment-IsCoherent r.outcome tls shaken r.error r.failure_class
        (dial_observed_lem tls m.dial).2 in
    let first = dial_assessment r.outcome tls shaken r.error r.failure_class in
    let (last, passed) = probed_assessment-IsSettled m first coherent in
    (
      last,
      λ h.
          let (healthy, probe) = passed h in
          let success =
            dial_assessment-success r.outcome tls shaken r.error r.failure_class healthy in
          (dial_observed-success tls m.dial success, probe),
      check_effects-balanced tls m,
    )
