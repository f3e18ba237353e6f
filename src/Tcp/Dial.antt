-- ===== src/Tcp/Dial.antt =====
-- tcpclient/dial.go and result.go: establishing one connection, and how its failure is classified.
-- A connection is told from others by a number, which the TLS connection over it keeps. What the dial meets (the custom dialer or net.Dialer,
-- the errors of the dial's context, the handshake) is a record that the model takes as given.
pub mod Owned
use clientkit.Prelude.{
  ℕ, Bool, true, false, ◌||◌, Option, none, some, List, [], ◌∷◌, ◌++◌, ◌==◌, nat_eq, if◌then◌else◌,
}
use clientkit.Text.{Text, codes}
use clientkit.Failure.{FailureClass, failure_none, failure_transport, failure_tls}
use clientkit.Fault.{
  Fault, other_fault, Error, plain, network, errors_is, is_context_canceled,
  is_context_deadline_exceeded, is_network_timeout,
}

pub data DialOutcome : Type 0 where
  outcome_success : DialOutcome
  outcome_timeout : DialOutcome
  outcome_canceled : DialOutcome
  outcome_dial_error : DialOutcome
  outcome_tls_error : DialOutcome

abbrev pub Connection : Type 0
Connection = ℕ

-- connectionMetadata.
pub record ConnectionMetadata : Type 0 where
  pub tls_version : Text
  pub tls_handshake_failed : Bool

abbrev pub no_metadata : ConnectionMetadata
no_metadata = record { tls_version = []; tls_handshake_failed = false }

-- `custom` is whether the configuration has its own dialer, which is called with the dial's context:
-- `before` and `after` are that context's errors around the call. A handshake gives the version of
-- TLS or an error.
pub record DialMeeting : Type 0 where
  pub custom : Bool
  pub before : Option Error
  pub dialed : Option Connection
  pub dial_error : Option Error
  pub after : Option Error
  pub handshake_error : Option Error
  pub version : ℕ

pub data ConnectEffect : Type 0 where
  opened : Connection → ConnectEffect
  closed : Connection → ConnectEffect

abbrev pub effects_of : (Connection → ConnectEffect) → Option Connection → List ConnectEffect
effects_of effect none = []
effects_of effect (some connection) = effect connection ∷ []

-- What dialConnection gives: a connection, an error, and what it opened and closed.
abbrev pub Dialed : Type 0
Dialed = Option Connection × Option Error × List ConnectEffect

abbrev custom_dialed : DialMeeting → Option Error → Dialed
custom_dialed m none = (m.dialed, m.dial_error, effects_of opened m.dialed)
custom_dialed m (some ended) = elim m.dialed [
  | none ↦ (none, some ended, [])
  | some connection ↦ (none, some ended, opened connection ∷ closed connection ∷ [])
]

abbrev custom_dial : DialMeeting → Option Error → Dialed
custom_dial m (some ended) = (none, some ended, [])
custom_dial m none = custom_dialed m m.after

unfoldable pub dial_connection : DialMeeting → Dialed
dial_connection m =
    if m.custom
    then custom_dial m m.before
    else (m.dialed, m.dial_error, effects_of opened m.dialed)

abbrev pub no_connection_error : Error
no_connection_error = plain (other_fault (codes "clientkit: TCP dial returned no connection"))

-- tls.VersionTLS12 is 0x0303, tls.VersionTLS13 is 0x0304.
unfoldable pub tls_version_name : ℕ → Text
tls_version_name version =
    if version == 0x0303 then codes "1.2" else if version == 0x0304 then codes "1.3" else []

-- What establishConnection gives.
pub record Established : Type 0 where
  pub connection : Option Connection
  pub metadata : ConnectionMetadata
  pub error : Option Error
  pub effects : List ConnectEffect

abbrev failed_connection : Error → List ConnectEffect → Established
failed_connection error effects = record {
  connection = none;
  metadata = no_metadata;
  error = some error;
  effects = effects;
}

-- After the dial: `connectionOwned` closes the connection that the handshake failed on.
abbrev secured : DialMeeting → Connection → Option Error → List ConnectEffect → Established
secured m connection none effects = record {
  connection = some connection;
  metadata = record { tls_version = tls_version_name m.version; tls_handshake_failed = false };
  error = none;
  effects = effects;
}
secured m connection (some error) effects = record {
  connection = none;
  metadata = record { tls_version = []; tls_handshake_failed = true };
  error = some error;
  effects = effects ++ closed connection ∷ [];
}

abbrev connected : Bool → DialMeeting → Connection → List ConnectEffect → Established
connected true m connection effects = secured m connection m.handshake_error effects
connected false m connection effects = record {
  connection = some connection;
  metadata = no_metadata;
  error = none;
  effects = effects;
}

abbrev established_from : Bool → DialMeeting → Dialed → Established
established_from tls m (some connection, some error, effects) =
    failed_connection error (effects ++ closed connection ∷ [])
established_from tls m (none, some error, effects) = failed_connection error effects
established_from tls m (none, none, effects) = failed_connection no_connection_error effects
established_from tls m (some connection, none, effects) = connected tls m connection effects

-- `tls` is whether TLS is enabled.
unfoldable pub establish_connection : Bool → DialMeeting → Established
establish_connection tls m = established_from tls m (dial_connection m)

unfoldable pub classify_dial_failure :
    Option Connection → Option Error → ConnectionMetadata → FailureClass
classify_dial_failure (some connection) none metadata = failure_none
classify_dial_failure none none metadata = failure_transport
classify_dial_failure connection (some error) metadata = network error metadata.tls_handshake_failed

abbrev is_tls_class : FailureClass → Bool
is_tls_class failure_tls = true
is_tls_class _ = false

-- The tests of classifyOutcome after the first; errors.Is of a nil error is false.
abbrev failed_outcome : Error → ConnectionMetadata → FailureClass → DialOutcome
failed_outcome error metadata class =
    if errors_is is_context_canceled error
    then outcome_canceled
    else if errors_is is_context_deadline_exceeded error
    then outcome_timeout
    else if is_network_timeout error
    then outcome_timeout
    else if metadata.tls_handshake_failed || is_tls_class class
    then outcome_tls_error
    else outcome_dial_error

unfoldable pub classify_dial_outcome :
    Option Connection → Option Error → ConnectionMetadata → FailureClass → DialOutcome
classify_dial_outcome (some connection) none metadata class = outcome_success
classify_dial_outcome none none metadata class = failed_outcome [] metadata class
classify_dial_outcome connection (some error) metadata class = failed_outcome error metadata class

-- Result, without its times.
pub record DialResult : Type 0 where
  pub connection : Option Connection
  pub outcome : DialOutcome
  pub failure_class : FailureClass
  pub error : Option Error
  pub metadata : ConnectionMetadata
  pub effects : List ConnectEffect

-- dialObserved, but for what it tells the observer.
unfoldable pub dial_observed : Bool → DialMeeting → DialResult
dial_observed tls m =
    let e = establish_connection tls m in
    let class = classify_dial_failure e.connection e.error e.metadata in
    record {
      connection = e.connection;
      outcome = classify_dial_outcome e.connection e.error e.metadata class;
      failure_class = class;
      error = e.error;
      metadata = e.metadata;
      effects = e.effects;
    }
