-- ===== src/Tcp/Check.antt =====
-- tcpclient/check.go: the health check that dials, lets a probe of the caller look at the connection,
-- and closes it.
pub mod Assessed
pub mod Cached
use clientkit.Prelude.{
  ℕ, Bool, true, false, Option, none, some, List, [], ◌∷◌, ◌++◌, ◌==◌, ℤ, Call, returned, panicked,
  if◌then◌else◌, pos,
}
use clientkit.Text.{Text, text_eq, codes}
use clientkit.Failure.{
  FailureClass, failure_none, failure_configuration, failure_request, failure_policy,
  failure_canceled, failure_timeout, failure_remote_response, failure_transport, is_failure_none,
}
use clientkit.Health.{
  HealthState, health_unknown, health_healthy, health_degraded, health_unhealthy, health_other,
  Health, is_healthy_state,
}
use clientkit.Fault.{
  Fault, other_fault, Error, errors_is, is_context_canceled, is_context_deadline_exceeded,
}
use clientkit.Opskit.{Attribute}
use clientkit.Observer.{HealthEvent}
use clientkit.Client.{Client, HealthAssessment, record_health, project_staleness}
use clientkit.Tcp.Dial.{
  DialOutcome, outcome_success, outcome_timeout, outcome_canceled, outcome_tls_error,
  outcome_dial_error, Connection, DialMeeting, ConnectEffect, closed, effects_of, DialResult,
  dial_observed,
}

abbrev assessment : HealthState → FailureClass → Text → HealthAssessment
assessment state class message = record { state = state; failure_class = class; message = message }

abbrev is_no_connection : Fault → Bool
is_no_connection (other_fault text) = text == codes "clientkit: TCP dial returned no connection"
is_no_connection _ = false

-- A nil error is no error that errors.Is looks for.
abbrev lacks_connection : Option Error → Bool
lacks_connection none = false
lacks_connection (some error) = errors_is is_no_connection error

abbrev failed_dial : Option Error → FailureClass → HealthAssessment
failed_dial error class =
    if lacks_connection error
    then assessment health_unhealthy failure_transport (codes "TCP dial returned no connection")
    else assessment health_unhealthy class (codes "TCP connection failed")

-- The first switch of Check: by the outcome, whether TLS is enabled, and whether the handshake failed.
unfoldable pub dial_assessment :
    DialOutcome → Bool → Bool → Option Error → FailureClass → HealthAssessment
dial_assessment outcome_success true shaken error class =
    assessment health_healthy failure_none (codes "TLS connection established")
dial_assessment outcome_success false shaken error class =
    assessment health_healthy failure_none (codes "TCP connection established")
dial_assessment outcome_timeout tls true error class =
    assessment health_unhealthy class (codes "TLS handshake timed out")
dial_assessment outcome_canceled tls true error class =
    assessment health_unhealthy class (codes "TLS handshake canceled")
dial_assessment outcome_tls_error tls shaken error class =
    assessment health_unhealthy class (codes "TLS handshake failed")
dial_assessment outcome_timeout tls false error class =
    assessment health_unhealthy class (codes "TCP connection timed out")
dial_assessment outcome_canceled tls false error class =
    assessment health_unhealthy class (codes "TCP connection canceled")
dial_assessment outcome_dial_error tls shaken error class = failed_dial error class

-- What probeConnectionSafely returns: the assessment, whether the probe panicked, and the context's
-- error after it.
abbrev pub ProbeResult : Type 0
ProbeResult = HealthAssessment × Bool × Option Error

abbrev no_assessment : HealthAssessment
no_assessment = assessment (health_other []) failure_none []

unfoldable pub probe_connection_safely : Call HealthAssessment → Option Error → ProbeResult
probe_connection_safely panicked ended = (no_assessment, true, none)
probe_connection_safely (returned a) (some ended) = (no_assessment, false, some ended)
probe_connection_safely (returned a) none = (a, false, none)

abbrev message_or : Text → Text
message_or [] = codes "TCP health probe completed"
message_or message = message

abbrev class_or_response : FailureClass → FailureClass
class_or_response failure_none = failure_remote_response
class_or_response class = class

-- The last two cases of the switch on a probe.
unfoldable pub accepted_assessment : HealthState → FailureClass → Text → HealthAssessment
accepted_assessment health_healthy class message =
    assessment health_healthy failure_none (message_or message)
accepted_assessment health_degraded class message =
    assessment health_degraded (class_or_response class) (message_or message)
accepted_assessment health_unhealthy class message =
    assessment health_unhealthy (class_or_response class) (message_or message)
accepted_assessment _ class message =
    assessment health_unhealthy failure_policy (codes "TCP health probe returned an invalid state")

abbrev context_assessment : HealthAssessment → Error → HealthAssessment
context_assessment a error =
    if errors_is is_context_canceled error
    then assessment health_unhealthy failure_canceled (codes "TCP health probe canceled")
    else if errors_is is_context_deadline_exceeded error
    then assessment health_unhealthy failure_timeout (codes "TCP health probe timed out")
    else accepted_assessment a.state a.failure_class a.message

unfoldable pub probe_assessment : ProbeResult → HealthAssessment
probe_assessment (a, true, error) =
    assessment health_unhealthy failure_policy (codes "TCP health probe panicked")
probe_assessment (a, false, some error) = context_assessment a error
probe_assessment (a, false, none) = accepted_assessment a.state a.failure_class a.message

-- What a check meets: its dial, what its probe does if there is one, the error of its context after
-- that, and the clock.
pub record TcpCheckMeeting : Type 0 where
  pub dial : DialMeeting
  pub probe : Option (Call HealthAssessment)
  pub probe_ended : Option Error
  pub started_at : ℕ
  pub ended_at : ℕ

abbrev probed_assessment : TcpCheckMeeting → HealthAssessment → HealthAssessment
probed_assessment m a = elim m.probe [
  | none ↦ a
  | some probe ↦
      if is_healthy_state a.state
      then probe_assessment (probe_connection_safely probe m.probe_ended)
      else a
]

unfoldable pub check_assessment : Bool → TcpCheckMeeting → HealthAssessment
check_assessment tls m =
    let r = dial_observed tls m.dial in
    probed_assessment m
      (dial_assessment r.outcome tls r.metadata.tls_handshake_failed r.error r.failure_class)

-- What the check opened and closed itself. Where its context ends during the probe, the connection is
-- closed at that moment as well, which is not in the list.
unfoldable pub check_effects : Bool → TcpCheckMeeting → List ConnectEffect
check_effects tls m =
    let r = dial_observed tls m.dial in r.effects ++ effects_of closed r.connection

-- Check of a client whose check is enabled: the client afterwards, the health and the event.
unfoldable pub check :
    Client → Bool → TcpCheckMeeting → List Attribute → Option Client × Health × HealthEvent
check c tls m attributes =
    record_health (some c) (codes "tcp") (check_assessment tls m) m.started_at m.ended_at attributes

abbrev disabled_health : Health
disabled_health = record {
  state = health_unknown;
  failure_class = failure_none;
  checked_at = 0;
  duration = pos 0;
  message = codes "TCP health check is disabled";
}

-- Check with its early returns: whether the client has a dialer, whether its check is enabled, and
-- whether it got a context. A check that is not enabled reports nothing.
abbrev recorded : Option Client × Health × HealthEvent → Option Client × Health × Option HealthEvent
recorded (after, health, event) = (after, health, some event)

abbrev refused_check :
    Option Client
    → FailureClass
    → Text
    → TcpCheckMeeting
    → List Attribute
    → Option Client × Health × Option HealthEvent
refused_check c class message m attributes = recorded (
    record_health c (codes "tcp") (assessment health_unhealthy class message) m.started_at
      m.ended_at attributes)

unfoldable pub guarded_check :
    Option Client
    → Bool
    → Bool
    → Bool
    → Bool
    → TcpCheckMeeting
    → List Attribute
    → Option Client × Health × Option HealthEvent
guarded_check none has_dialer enabled has_context tls m attributes =
    refused_check none failure_configuration (codes "TCP client is not configured") m attributes
guarded_check (some c) false enabled has_context tls m attributes =
    refused_check (some c) failure_configuration (codes "TCP client is not configured") m attributes
guarded_check (some c) true false has_context tls m attributes = (some c, disabled_health, none)
guarded_check (some c) true true false tls m attributes =
    refused_check (some c) failure_request (codes "TCP health check context is required") m
      attributes
guarded_check (some c) true true true tls m attributes = recorded (check c tls m attributes)

-- Health of a client that is there.
unfoldable pub tcp_health : Client → Bool → ℤ → ℕ → Health
tcp_health c enabled stale_after now =
    if enabled
    then project_staleness c.health stale_after (codes "TCP health check") now
    else c.health
